-- ===== src/Base/Best.antt =====
-- A sorting loop that keeps the best elements only, and what it leaves.
use Prim.Native.Nat.{ℕ, zero, suc, ◌+◌, min}
use mathlib.Core.Path.{◌≡◌, refl, sym, ap, ◌∙◌}
use mathlib.Core.Logic.{inl, inr}
use mathlib.Core.Bool.{Bool, false}
use mathlib.Core.List.{List, [], ◌∷◌, ◌++◌, Perm, append-nil, append_assoc}
use native.Mathlib.Omega.{arith}
use terraform_cloudrun_glue.Base.Tests.{ltb, if◌then◌else◌, Bool-cases}
use terraform_cloudrun_glue.Base.Lists.{length, length-take, take, drop, All, take-length}
use terraform_cloudrun_glue.Base.Sorting.{
  insert_by, insert_all, sort_by, IsSortedBy, IsWeakOrder, take-insert_by, insert_all-snoc,
  sort_by-perm, sort_by-IsSortedBy, sort_by-sorted, IsSortedBy-take,
}

-- A loop that appends each element, sorts, and cuts the list to `n` elements.
module _ {ℓ} {A : Type ℓ} (less : A → A → Bool) (n : ℕ) where
  unfoldable pub push_top : List A → A → List A
  push_top qd x =
      let sorted = sort_by less (qd ++ x ∷ []) in
      if ltb n (length sorted) then take n sorted else sorted

  unfoldable pub top_loop : List A → List A → List A
  unfolding push_top
  top_loop qd [] = qd
  top_loop qd (x ∷ xs) = top_loop (push_top qd x) xs

  push_top-take :
      IsWeakOrder less
      → (xs : List A) (x : A)
      → push_top (take n (sort_by less xs)) x ≡ take n (sort_by less (xs ++ x ∷ []))
  unfolding push_top sort_by
  push_top-take order xs x =
      let sorted = sort_by-IsSortedBy less order xs in
      let same = sort_by-sorted less (take n (sort_by less xs)) (IsSortedBy-take less n _ sorted) in
      cut _
      ∙ ap (take n)
          (insert_all-snoc less x [] (take n (sort_by less xs)) ∙ ap (insert_by less x) same)
      ∙ take-insert_by less n x (sort_by less xs)
      ∙ ap (take n) (sym (insert_all-snoc less x [] xs))
    where
      cut : (l : List A) → (if ltb n (length l) then take n l else l) ≡ take n l
      cut l = elim (Bool-cases (ltb n (length l))) [
        | inl e ↦ rw e refl
        | inr e ↦ rw e (sym (take-length n l (ground arith)))
      ]

  -- The loop keeps the first `n` of all elements in sorted order.
  pub top_loop-take :
      IsWeakOrder less
      → (seen xs : List A)
      → top_loop (take n (sort_by less seen)) xs ≡ take n (sort_by less (seen ++ xs))
  unfolding top_loop
  top_loop-take order seen [] = ap (λ l. take n (sort_by less l)) (sym (append-nil seen))
  top_loop-take order seen (x ∷ xs) = rw (push_top-take order seen x) (
      top_loop-take order (seen ++ x ∷ []) xs
      ∙ ap (λ l. take n (sort_by less l)) (append_assoc seen (x ∷ []) xs))

  pub top_loop_lem : IsWeakOrder less → (xs : List A) → top_loop [] xs ≡ take n (sort_by less xs)
  unfolding sort_by
  top_loop_lem order xs = rw (take-nil n) at (top_loop-take order [] xs)
    where
      take-nil : (n : ℕ) → take {A = A} n [] ≡ []
      take-nil zero = refl
      take-nil (suc n) = refl

-- The elements kept and those cut off: together all of them, and none of these is less than one
-- of those.
pub record IsTop {ℓ} {A : Type ℓ} (less : A → A → Bool) (n : ℕ) (all top : List A) : Type ℓ where
  pub rest : List A
  pub perm : Perm (top ++ rest) all
  pub size : length top ≡ min n (length all)
  pub sorted : IsSortedBy less top
  pub best : All (λ x. All (λ y. less y x ≡ false) rest) top

module _ {ℓ} {A : Type ℓ} (less : A → A → Bool) where
  sorted-best :
      (n : ℕ) (xs : List A)
      → IsSortedBy less xs
      → All (λ x. All (λ y. less y x ≡ false) (drop n xs)) (take n xs)
  sorted-best zero xs s = tt
  sorted-best (suc n) [] s = tt
  sorted-best (suc n) (x ∷ xs) s = (All-drop n xs s.0, sorted-best n xs s.1)
    where
      All-drop :
          (n : ℕ) (l : List A)
          → All (λ y. less y x ≡ false) l
          → All (λ y. less y x ≡ false) (drop n l)
      All-drop zero l h = h
      All-drop (suc n) [] h = tt
      All-drop (suc n) (y ∷ l) h = All-drop n l h.1

  take-append-drop : (n : ℕ) (xs : List A) → take n xs ++ drop n xs ≡ xs
  take-append-drop zero xs = refl
  take-append-drop (suc n) [] = refl
  take-append-drop (suc n) (x ∷ xs) = ap (◌∷◌ x) (take-append-drop n xs)

  length-insert_by : (x : A) (xs : List A) → length (insert_by less x xs) ≡ suc (length xs)
  unfolding insert_by
  length-insert_by x [] = refl
  length-insert_by x (y ∷ ys) = ground (arith, length-insert_by x ys)

  length-insert_all : (acc xs : List A) → length (insert_all less acc xs) ≡ length acc + length xs
  unfolding insert_all
  length-insert_all acc [] = omega arith
  length-insert_all acc (x ∷ xs) =
      omega (arith, length-insert_all (insert_by less x acc) xs, length-insert_by x acc)

  pub length-sort_by : (xs : List A) → length (sort_by less xs) ≡ length xs
  unfolding sort_by
  length-sort_by xs = omega (arith, length-insert_all [] xs)

  pub take-sort_by-IsTop :
      IsWeakOrder less → (n : ℕ) (xs : List A) → IsTop less n xs (take n (sort_by less xs))
  take-sort_by-IsTop order n xs = record {
    rest = drop n (sort_by less xs);
    perm = rw (take-append-drop n (sort_by less xs)) (sort_by-perm less xs);
    size = omega (arith, length-take n (sort_by less xs), length-sort_by xs);
    sorted = IsSortedBy-take less n _ (sort_by-IsSortedBy less order xs);
    best = sorted-best n _ (sort_by-IsSortedBy less order xs);
  }
