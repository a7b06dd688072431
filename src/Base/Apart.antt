-- ===== src/Base/Apart.antt =====
-- Lists whose elements are in relation to all that stand after them.
use Prim.Native.Nat.{ℕ, zero, suc}
use mathlib.Core.Logic.{inl, inr}
use mathlib.Core.Bool.{Bool}
use mathlib.Core.List.{List, [], ◌∷◌}
use terraform_cloudrun_glue.Base.Tests.{Bool-cases}
use terraform_cloudrun_glue.Base.Lists.{take, keep, All, All-take}
use terraform_cloudrun_glue.Base.Sorting.{insert_by, insert_all, sort_by, All-insert_by}

module _ {ℓ} {A : Type ℓ} (R : A → A → Type 0) where
  abbrev pub Pairwise : List A → Type 0
  Pairwise [] = Unit
  Pairwise (x ∷ xs) = All (R x) xs × Pairwise xs

  pub Pairwise-take : (n : ℕ) (xs : List A) → Pairwise xs → Pairwise (take n xs)
  Pairwise-take zero xs h = tt
  Pairwise-take (suc n) [] h = tt
  Pairwise-take (suc n) (x ∷ xs) h = (All-take (R x) n xs h.0, Pairwise-take n xs h.1)

module _ {ℓ} {A : Type ℓ} where
  pub keep-All : (P : A → Type 0) (p : A → Bool) (xs : List A) → All P xs → All P (keep p xs)
  keep-All P p [] h = tt
  keep-All P p (x ∷ xs) h = elim (Bool-cases (p x)) [
    | inl e ↦ rw e (h.0, keep-All P p xs h.1)
    | inr e ↦ rw e (keep-All P p xs h.1)
  ]

  pub Pairwise-keep :
      (R : A → A → Type 0) (p : A → Bool) (xs : List A) → Pairwise R xs → Pairwise R (keep p xs)
  Pairwise-keep R p [] h = tt
  Pairwise-keep R p (x ∷ xs) h = elim (Bool-cases (p x)) [
    | inl e ↦ rw e (keep-All (R x) p xs h.0, Pairwise-keep R p xs h.1)
    | inr e ↦ rw e (Pairwise-keep R p xs h.1)
  ]

module _ {ℓ} {A : Type ℓ} (less : A → A → Bool) where
  All-insert_all :
      (P : A → Type 0) (acc xs : List A) → All P acc → All P xs → All P (insert_all less acc xs)
  unfolding insert_all
  All-insert_all P acc [] a h = a
  All-insert_all P acc (x ∷ xs) a h =
      All-insert_all P (insert_by less x acc) xs (All-insert_by less P x acc h.0 a) h.1

  pub All-sort_by : (P : A → Type 0) (xs : List A) → All P xs → All P (sort_by less xs)
  unfolding sort_by
  All-sort_by P xs h = All-insert_all P [] xs tt h

  module _ (R : A → A → Type 0) (turn : (x y : A) → R x y → R y x) where
    All-turn : (x : A) (xs : List A) → All (R x) xs → All (λ y. R y x) xs
    All-turn x [] h = tt
    All-turn x (y ∷ ys) h = (turn x y h.0, All-turn x ys h.1)

    Pairwise-insert_by :
        (x : A) (xs : List A) → All (R x) xs → Pairwise R xs → Pairwise R (insert_by less x xs)
    unfolding insert_by
    Pairwise-insert_by x [] a h = (tt, tt)
    Pairwise-insert_by x (y ∷ ys) a h = elim (Bool-cases (less x y)) [
      | inl e ↦ rw e (a, h)
      | inr e ↦
          rw e (All-insert_by less (R y) x ys (turn x y a.0) h.0, Pairwise-insert_by x ys a.1 h.1)
    ]

    apart_from : (x : A) (xs acc : List A) → All (λ y. All (R y) (x ∷ xs)) acc → All (R x) acc
    apart_from x xs [] h = tt
    apart_from x xs (y ∷ acc) h = (turn y x h.0.0, apart_from x xs acc h.1)

    Pairwise-insert_all :
        (acc xs : List A)
        → All (λ y. All (R y) xs) acc
        → Pairwise R acc
        → Pairwise R xs
        → Pairwise R (insert_all less acc xs)
    unfolding insert_all
    Pairwise-insert_all acc [] a k h = k
    Pairwise-insert_all acc (x ∷ xs) a k h =
        Pairwise-insert_all (insert_by less x acc) xs
          (All-insert_by less (λ y. All (R y) xs) x acc h.0 (later acc a))
          (Pairwise-insert_by x acc (apart_from x xs acc a) k) h.1
      where
        later : (l : List A) → All (λ y. All (R y) (x ∷ xs)) l → All (λ y. All (R y) xs) l
        later [] u = tt
        later (y ∷ l) u = (u.0.1, later l u.1)

    pub Pairwise-sort_by : (xs : List A) → Pairwise R xs → Pairwise R (sort_by less xs)
    unfolding sort_by
    Pairwise-sort_by xs h = Pairwise-insert_all [] xs tt tt h
