-- ===== src/Base/Maps.antt =====
-- A Go map with string keys as an association list. Iteration goes in the order of the list, which
-- stands for whichever order the runtime picks.
use mathlib.Core.Path.{◌≡◌, refl, sym, ap, ◌∙◌}
use mathlib.Core.Logic.{◌⊎◌, inl, inr}
use mathlib.Core.Bool.{true, false}
use mathlib.Core.Option.{Option, none, some}
use mathlib.Core.List.{List, [], ◌∷◌}
use native.Mathlib.Omega.{arith}
use terraform_cloudrun_glue.Base.Tests.{if◌then◌else◌, Bool-cases}
use terraform_cloudrun_glue.Base.Bytes.{Text, text_eq, text_eq_iff, text_eq_refl}

abbrev pub Dict {ℓ} : Type ℓ → Type ℓ
Dict V = List (Text × V)

module _ {ℓ} {V : Type ℓ} where
  unfoldable pub lookup : Text → Dict V → Option V
  lookup k [] = none
  lookup k ((j, v) ∷ m) = if text_eq j k then some v else lookup k m

  unfoldable pub insert : Text → V → Dict V → Dict V
  insert k v [] = (k, v) ∷ []
  insert k v ((j, w) ∷ m) = if text_eq j k then (k, v) ∷ m else (j, w) ∷ insert k v m

  unfoldable pub delete : Text → Dict V → Dict V
  delete k [] = []
  delete k ((j, w) ∷ m) = if text_eq j k then delete k m else (j, w) ∷ delete k m

  pub lookup-insert :
      (j k : Text) (v : V) (m : Dict V)
      → lookup j (insert k v m) ≡ (if text_eq k j then some v else lookup j m)
  unfolding lookup insert
  lookup-insert j k v [] = refl
  lookup-insert j k v ((i, w) ∷ m) =
      ground (arith, text_eq_iff k j, text_eq_iff i k, text_eq_iff i j, lookup-insert j k v m)

  pub lookup-delete :
      (j k : Text) (m : Dict V) → lookup j (delete k m) ≡ (if text_eq k j then none else lookup j m)
  unfolding lookup delete
  lookup-delete j k [] = ground arith
  lookup-delete j k ((i, w) ∷ m) =
      ground (arith, text_eq_iff k j, text_eq_iff i k, text_eq_iff i j, lookup-delete j k m)

  pub lookup-insert_self : (k : Text) (v : V) (m : Dict V) → lookup k (insert k v m) ≡ some v
  lookup-insert_self k v m = rw (lookup-insert, text_eq_refl)

  pub lookup-delete_self : (k : Text) (m : Dict V) → lookup k (delete k m) ≡ none
  lookup-delete_self k m = rw (lookup-delete, text_eq_refl)

  pub lookup-insert_other :
      (j k : Text) (v : V) (m : Dict V) → text_eq k j ≡ false → lookup j (insert k v m) ≡ lookup j m
  lookup-insert_other j k v m h = rw (lookup-insert, h)

  pub lookup-delete_other :
      (j k : Text) (m : Dict V) → text_eq k j ≡ false → lookup j (delete k m) ≡ lookup j m
  lookup-delete_other j k m h = rw (lookup-delete, h)

  -- A new key leaves what the map has.
  pub lookup-insert_fresh :
      (j k : Text) (v w : V) (m : Dict V)
      → lookup k m ≡ none
      → lookup j m ≡ some w
      → lookup j (insert k v m) ≡ some w
  lookup-insert_fresh j k v w m f e = lookup-insert j k v m ∙ by_test (Bool-cases (text_eq k j))
    where
      clash : k ≡ j → ⊥
      clash same = let h : none ≡ some w = sym f ∙ ap (λ i. lookup i m) same ∙ e in cc

      by_test :
          (text_eq k j ≡ true) ⊎ (text_eq k j ≡ false)
          → (if text_eq k j then some v else lookup j m) ≡ some w
      by_test (inl t) = absurd (clash ((text_eq_iff k j).0 t))
      by_test (inr t) = rw t e
