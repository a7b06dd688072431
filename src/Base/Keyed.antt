-- ===== src/Base/Keyed.antt =====
-- Association lists where no key stands twice.
use mathlib.Core.Path.{◌≡◌, subst}
use mathlib.Core.Logic.{inl, inr}
use mathlib.Core.Bool.{false}
use mathlib.Core.List.{[], ◌∷◌}
use terraform_cloudrun_glue.Base.Tests.{Bool-cases}
use terraform_cloudrun_glue.Base.Lists.{All}
use terraform_cloudrun_glue.Base.Bytes.{Text, text_eq, text_eq_iff}
use terraform_cloudrun_glue.Base.Maps.{Dict, insert, delete}
use terraform_cloudrun_glue.Base.Apart.{Pairwise}

module _ {V : Type 0} where
  -- Two entries have different keys.
  abbrev pub Differ : Text × V → Text × V → Type 0
  Differ a b = text_eq a.0 b.0 ≡ false

  abbrev pub IsMap : Dict V → Type 0
  IsMap m = Pairwise Differ m

  All-delete : (P : Text × V → Type 0) (k : Text) (m : Dict V) → All P m → All P (delete k m)
  unfolding delete
  All-delete P k [] h = tt
  All-delete P k ((j, w) ∷ m) h = elim (Bool-cases (text_eq j k)) [
    | inl e ↦ rw e (All-delete P k m h.1)
    | inr e ↦ rw e (h.0, All-delete P k m h.1)
  ]

  pub delete-IsMap : (k : Text) (m : Dict V) → IsMap m → IsMap (delete k m)
  unfolding delete
  delete-IsMap k [] h = tt
  delete-IsMap k ((j, w) ∷ m) h = elim (Bool-cases (text_eq j k)) [
    | inl e ↦ rw e (delete-IsMap k m h.1)
    | inr e ↦ rw e (All-delete (Differ (j, w)) k m h.0, delete-IsMap k m h.1)
  ]

  All-insert :
      (P : Text × V → Type 0) (k : Text) (v : V) (m : Dict V)
      → P (k, v)
      → All P m
      → All P (insert k v m)
  unfolding insert
  All-insert P k v [] p h = (p, tt)
  All-insert P k v ((j, w) ∷ m) p h = elim (Bool-cases (text_eq j k)) [
    | inl e ↦ rw e (p, h.1)
    | inr e ↦ rw e (h.0, All-insert P k v m p h.1)
  ]

  pub insert-IsMap : (k : Text) (v : V) (m : Dict V) → IsMap m → IsMap (insert k v m)
  unfolding insert
  insert-IsMap k v [] h = (tt, tt)
  insert-IsMap k v ((j, w) ∷ m) h = elim (Bool-cases (text_eq j k)) [
    | inl e ↦
        rw e (subst (λ i. All (λ b. text_eq i b.0 ≡ false) m) ((text_eq_iff j k).0 e) h.0, h.1)
    | inr e ↦ rw e (All-insert (Differ (j, w)) k v m e h.0, insert-IsMap k v m h.1)
  ]
