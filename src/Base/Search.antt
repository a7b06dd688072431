-- ===== src/Base/Search.antt =====
-- strings.Index and strings.Contains: where a text first occurs in another, and texts of lines.
use Prim.Native.Nat.{ℕ, suc, ◌+◌, ◌<◌}
use mathlib.Core.Path.{◌≡◌, refl, ap, ◌∙◌}
use mathlib.Core.Bool.{true, false}
use mathlib.Core.Option
use mathlib.Core.Option.{Option, none, some}
use mathlib.Core.List.{[], ◌∷◌, ◌++◌}
use native.Mathlib.Omega.{arith}
use terraform_cloudrun_glue.Base.Tests.{if◌then◌else◌, ◌==◌}
use terraform_cloudrun_glue.Base.Lists.{length, All}
use terraform_cloudrun_glue.Base.Bytes.{Text, has_prefix, has_prefix-append, contains}

-- None stands for -1.
unfoldable pub index : Text → Text → Option ℕ
unfolding has_prefix
index [] p = if has_prefix [] p then some 0 else none
index (c ∷ s) p = if has_prefix (c ∷ s) p then some 0 else Option.map suc (index s p)

-- The byte does not occur in the text.
abbrev pub FreeOf : ℕ → Text → Type 0
FreeOf c = All (λ x. (x == c) ≡ false)

pub index-here : (p s : Text) → index (p ++ s) p ≡ some 0
unfolding index
index-here [] [] = refl
index-here [] (c ∷ s) = refl
index-here (c ∷ p) s = rw (has_prefix-append (c ∷ p) s) refl

pub contains-here : (p s : Text) → contains (p ++ s) p ≡ true
unfolding contains
contains-here [] [] = refl
contains-here [] (c ∷ s) = refl
contains-here (c ∷ p) s = rw (has_prefix-append (c ∷ p) s) refl

pub contains-later : (a p s : Text) → contains (a ++ (p ++ s)) p ≡ true
unfolding contains
contains-later [] p s = contains-here p s
contains-later (c ∷ a) p s = ground (arith, contains-later a p s)

-- A text without line breaks occurs in one of two lines.
has_prefix-line : (c : ℕ) (a b p : Text) → FreeOf c p → has_prefix (a ++ c ∷ b) p ≡ has_prefix a p
unfolding has_prefix
has_prefix-line c [] b [] h = refl
has_prefix-line c [] b (d ∷ p) h = ground arith
has_prefix-line c (x ∷ a) b [] h = refl
has_prefix-line c (x ∷ a) b (d ∷ p) h = ground (arith, has_prefix-line c a b p h.1)

one_further : (o : Option ℕ) → Option.map suc o ≡ Option.map (λ n. 1 + n) o
one_further none = refl
one_further (some n) = ap some (omega arith)

further :
    (k : ℕ) (o : Option ℕ)
    → Option.map suc (Option.map (λ n. k + n) o) ≡ Option.map (λ n. suc k + n) o
further k none = refl
further k (some n) = ap some (omega arith)

-- A text without line breaks that a line lacks is looked for after it.
pub index-line :
    (c : ℕ) (a b p : Text)
    → FreeOf c p
    → contains a p ≡ false
    → index (a ++ c ∷ b) p ≡ Option.map (λ n. suc (length a) + n) (index b p)
unfolding index contains
index-line c [] b p h e = rw (has_prefix-line c [] b p h ∙ e) (one_further (index b p))
index-line c (x ∷ a) b p h e =
    let here : has_prefix (x ∷ a) p ≡ false = ground arith in
    let later : contains a p ≡ false = ground arith in
    rw (has_prefix-line c (x ∷ a) b p h ∙ here)
      (ap (Option.map suc) (index-line c a b p h later) ∙ further (suc (length a)) (index b p))

-- A text without line breaks occurs in one of two lines.
pub contains-line :
    (c : ℕ) (a b p : Text)
    → FreeOf c p
    → contains a p ≡ false
    → contains b p ≡ false
    → contains (a ++ c ∷ b) p ≡ false
unfolding contains
contains-line c [] b p h e f = rw (has_prefix-line c [] b p h ∙ e) f
contains-line c (x ∷ a) b p h e f =
    let here : has_prefix (x ∷ a) p ≡ false = ground arith in
    let later : contains a p ≡ false = ground arith in
    rw (has_prefix-line c (x ∷ a) b p h ∙ here) (contains-line c a b p h later f)

has_prefix-length : (s p : Text) → length s < length p → has_prefix s p ≡ false
unfolding has_prefix
has_prefix-length s [] h = absurd (omega arith)
has_prefix-length [] (d ∷ p) h = refl
has_prefix-length (c ∷ s) (d ∷ p) h = ground (arith, has_prefix-length s p (omega arith))

-- No text occurs in a shorter one.
pub contains-length : (s p : Text) → length s < length p → contains s p ≡ false
unfolding contains
contains-length [] p h = has_prefix-length [] p h
contains-length (c ∷ s) p h = rw (has_prefix-length (c ∷ s) p h) (contains-length s p (omega arith))

-- Nor does one whose first byte does not.
pub contains-FreeOf : (c : ℕ) (s p : Text) → FreeOf c s → contains s (c ∷ p) ≡ false
unfolding contains has_prefix
contains-FreeOf c [] p h = refl
contains-FreeOf c (x ∷ s) p h = rw (h.0) (contains-FreeOf c s p h.1)
