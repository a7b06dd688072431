-- ===== src/Base/Sorting.antt =====
-- sort.Slice with a comparison `less`, as an insertion sort.
use Prim.Native.Nat.{ℕ, zero, suc}
use mathlib.Core.Path.{◌≡◌, refl, sym, ap, ◌∙◌}
use mathlib.Core.Logic.{inl, inr}
use mathlib.Core.Bool.{Bool, true, false}
use mathlib.Core.List.{List, [], ◌∷◌, ◌++◌}
use mathlib.Core.List.Perm
use mathlib.Core.List.{Perm, perm_middle, append-nil, append_assoc}
use terraform_cloudrun_glue.Base.Tests.{if◌then◌else◌, Bool-cases}
use terraform_cloudrun_glue.Base.Lists.{take, All, All-map, All-take}

module _ {ℓ} {A : Type ℓ} (less : A → A → Bool) where
  unfoldable pub insert_by : A → List A → List A
  insert_by x [] = x ∷ []
  insert_by x (y ∷ ys) = if less x y then x ∷ y ∷ ys else y ∷ insert_by x ys

  unfoldable pub insert_all : List A → List A → List A
  unfolding insert_by
  insert_all acc [] = acc
  insert_all acc (x ∷ xs) = insert_all (insert_by x acc) xs

  unfoldable pub sort_by : List A → List A
  unfolding insert_all
  sort_by xs = insert_all [] xs

  -- No element is less than one that stands before it.
  abbrev pub IsSortedBy : List A → Type 0
  IsSortedBy [] = Unit
  IsSortedBy (x ∷ xs) = All (λ y. less y x ≡ false) xs × IsSortedBy xs

-- What sort.Slice asks of `less`: a strict weak order.
pub record IsWeakOrder {ℓ} {A : Type ℓ} (less : A → A → Bool) : Type ℓ where
  pub asym : (x y : A) → less x y ≡ true → less y x ≡ false
  pub trans : (x y z : A) → less y x ≡ false → less z y ≡ false → less z x ≡ false

module _ {ℓ} {A : Type ℓ} (less : A → A → Bool) where
  pub All-insert_by {κ} :
      (P : A → Type κ) (x : A) (xs : List A) → P x → All P xs → All P (insert_by less x xs)
  unfolding insert_by
  All-insert_by P x [] px h = (px, tt)
  All-insert_by P x (y ∷ ys) px h = elim (Bool-cases (less x y)) [
    | inl e ↦ rw e (px, h)
    | inr e ↦ rw e (h.0, All-insert_by P x ys px h.1)
  ]

  pub take-insert_by :
      (n : ℕ) (x : A) (xs : List A)
      → take n (insert_by less x (take n xs)) ≡ take n (insert_by less x xs)
  unfolding insert_by
  take-insert_by zero x xs = refl
  take-insert_by (suc n) x [] = refl
  take-insert_by (suc zero) x (y ∷ ys) = elim (Bool-cases (less x y)) [
    | inl e ↦ rw e refl
    | inr e ↦ rw e refl
  ]
  take-insert_by (suc (suc n)) x (y ∷ ys) = elim (Bool-cases (less x y)) [
    | inl e ↦ rw e (ap (λ l. x ∷ y ∷ l) (take-take n ys))
    | inr e ↦ rw e (ap (◌∷◌ y) (take-insert_by (suc n) x ys))
  ]
    where
      take-take : (n : ℕ) (l : List A) → take n (take (suc n) l) ≡ take n l
      take-take zero l = refl
      take-take (suc n) [] = refl
      take-take (suc n) (x ∷ l) = ap (◌∷◌ x) (take-take n l)

  pub insert_all-snoc :
      (x : A) (acc xs : List A)
      → insert_all less acc (xs ++ x ∷ []) ≡ insert_by less x (insert_all less acc xs)
  unfolding insert_all
  insert_all-snoc x acc [] = refl
  insert_all-snoc x acc (y ∷ xs) = insert_all-snoc x (insert_by less y acc) xs

  insert_by-snoc :
      (x : A) (xs : List A) → All (λ y. less x y ≡ false) xs → insert_by less x xs ≡ xs ++ x ∷ []
  unfolding insert_by
  insert_by-snoc x [] h = refl
  insert_by-snoc x (y ∷ ys) h = rw h.0 (ap (◌∷◌ y) (insert_by-snoc x ys h.1))

  insert_by-perm : (x : A) (xs : List A) → Perm (insert_by less x xs) (x ∷ xs)
  unfolding insert_by
  insert_by-perm x [] = Perm.rfl
  insert_by-perm x (y ∷ ys) = elim (Bool-cases (less x y)) [
    | inl e ↦ rw e Perm.rfl
    | inr e ↦ rw e (Perm.trans (Perm.cons y (insert_by-perm x ys)) (Perm.swap x y ys))
  ]

  insert_all-perm : (acc xs : List A) → Perm (insert_all less acc xs) (xs ++ acc)
  unfolding insert_all
  insert_all-perm acc [] = Perm.rfl
  insert_all-perm acc (x ∷ xs) =
      Perm.trans (insert_all-perm (insert_by less x acc) xs)
        (Perm.trans (Perm.append_left xs (insert_by-perm x acc)) (perm_middle xs acc))

  -- Sorting only reorders.
  pub sort_by-perm : (xs : List A) → Perm (sort_by less xs) xs
  unfolding sort_by
  sort_by-perm xs = rw append-nil at (insert_all-perm [] xs)

  module _ (order : IsWeakOrder less) where
    open order use {asym, trans}

    insert_by-IsSortedBy :
        (x : A) (xs : List A) → IsSortedBy less xs → IsSortedBy less (insert_by less x xs)
    unfolding insert_by
    insert_by-IsSortedBy x [] s = (tt, tt)
    insert_by-IsSortedBy x (y ∷ ys) s = elim (Bool-cases (less x y)) [
      | inl e ↦ rw e (
        (
          asym x y e,
          All-map (λ z. less z y ≡ false) (λ z. less z x ≡ false) ys
              (λ z h. trans x y z (asym x y e) h) s.0,
        ),
        s,
      )
      | inr e ↦
          rw e (All-insert_by (λ z. less z y ≡ false) x ys e s.0, insert_by-IsSortedBy x ys s.1)
    ]

    insert_all-IsSortedBy :
        (acc xs : List A) → IsSortedBy less acc → IsSortedBy less (insert_all less acc xs)
    unfolding insert_all
    insert_all-IsSortedBy acc [] s = s
    insert_all-IsSortedBy acc (x ∷ xs) s =
        insert_all-IsSortedBy (insert_by less x acc) xs (insert_by-IsSortedBy x acc s)

    pub sort_by-IsSortedBy : (xs : List A) → IsSortedBy less (sort_by less xs)
    unfolding sort_by
    sort_by-IsSortedBy xs = insert_all-IsSortedBy [] xs tt

  Sorted-prefix :
      (acc : List A) (x : A) (xs : List A)
      → IsSortedBy less (acc ++ x ∷ xs)
      → All (λ y. less x y ≡ false) acc
  Sorted-prefix [] x xs s = tt
  Sorted-prefix (y ∷ acc) x xs s = (All-middle acc s.0, Sorted-prefix acc x xs s.1)
    where
      All-middle : (l : List A) → All (λ z. less z y ≡ false) (l ++ x ∷ xs) → less x y ≡ false
      All-middle [] h = h.0
      All-middle (z ∷ l) h = All-middle l h.1

  insert_all-sorted :
      (acc xs : List A) → IsSortedBy less (acc ++ xs) → insert_all less acc xs ≡ acc ++ xs
  unfolding insert_all
  insert_all-sorted acc [] s = sym (append-nil acc)
  insert_all-sorted acc (x ∷ xs) s =
      rw (insert_by-snoc x acc (Sorted-prefix acc x xs s))
        (insert_all-sorted (acc ++ x ∷ []) xs (rw append_assoc s) ∙ append_assoc acc (x ∷ []) xs)

  -- A sorted list is left as it is.
  pub sort_by-sorted : (xs : List A) → IsSortedBy less xs → sort_by less xs ≡ xs
  unfolding sort_by
  sort_by-sorted xs s = insert_all-sorted [] xs s

  pub IsSortedBy-take : (n : ℕ) (xs : List A) → IsSortedBy less xs → IsSortedBy less (take n xs)
  IsSortedBy-take zero xs s = tt
  IsSortedBy-take (suc n) [] s = tt
  IsSortedBy-take (suc n) (x ∷ xs) s =
      (All-take (λ y. less y x ≡ false) n xs s.0, IsSortedBy-take n xs s.1)
