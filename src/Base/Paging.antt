-- ===== src/Base/Paging.antt =====
-- Loops over the pages of a listing that stop at the first element that passes a test.
use Prim.Native.Nat.{ℕ, suc}
use mathlib.Core.Path.{◌≡◌, refl}
use mathlib.Core.Logic.{inl, inr}
use mathlib.Core.Bool.{Bool, true, false}
use mathlib.Core.Option.{Option, none, some}
use mathlib.Core.List.{List, [], ◌∷◌, ◌++◌}
use native.Mathlib.Omega.{arith}
use terraform_cloudrun_glue.Base.Tests.{◌==◌, if◌then◌else◌, Bool-cases}

-- The first of two answers.
abbrev pub or_else {ℓ} : {A : Type ℓ} → Option A → Option A → Option A
or_else none o = o
or_else (some a) o = some a

module _ {E : Type 0} (test : E → Bool) where
  unfoldable pub first_by : List E → Option E
  first_by [] = none
  first_by (x ∷ xs) = if test x then some x else first_by xs

  pub first_by-append : (xs ys : List E) → first_by (xs ++ ys) ≡ or_else (first_by xs) (first_by ys)
  unfolding first_by
  first_by-append [] ys = refl
  first_by-append (x ∷ xs) ys = elim (Bool-cases (test x)) [
    | inl e ↦ rw e refl
    | inr e ↦ rw e (first_by-append xs ys)
  ]

-- What such a loop gives, when `g` is what it makes of the element at which it stops, and `z` its
-- result when there is none.
module _ {E A : Type 0} (g : E → A) (z : A) where
  abbrev pub ending : Option E → A
  ending none = z
  ending (some x) = g x

  pub last_ending :
      (o : Option E) → elim o [ some x ↦ some (g x) | none ↦ some z ] ≡ some (ending o)
  last_ending none = refl
  last_ending (some x) = refl

  pub next_ending :
      (o rest : Option E) (later : Option A) (next : ℕ)
      → later ≡ some (ending rest)
      → elim o [
        | some x ↦ some (g x)
        | none ↦ elim (suc next == 0) [ true ↦ some z | false ↦ later ]
      ]
        ≡ some (ending (or_else o rest))
  next_ending none rest later next h =
      let test : (suc next == 0) ≡ false = ground arith in rw test h
  next_ending (some x) rest later next h = refl
