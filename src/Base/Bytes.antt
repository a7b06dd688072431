-- ===== src/Base/Bytes.antt =====
-- Texts as lists of bytes: equality, order, prefixes, and the functions of Go's package strings
-- that the program calls.
use Prim.Native.Char.{code}
use Prim.Native.String.{String}
use Prim.Native.Nat.{ℕ}
use mathlib.Core.Path.{◌≡◌, refl}
use mathlib.Core.Logic.{◌↔◌, ◌⊎◌, inl, inr}
use mathlib.Core.Bool.{Bool, true, false, ◌&&◌, ◌||◌, not}
use mathlib.Core.List.{List, [], ◌∷◌, ◌++◌, Memᴰ}
use mathlib.Core.List.Memᴰ
use native.Mathlib.Omega.{arith}
use terraform_cloudrun_glue.Base.Tests.{ltb, ◌==◌, if◌then◌else◌, Bool-cases}

abbrev pub Text : Type 0
Text = List ℕ

-- The code points of a literal: its bytes, since all literals of the model are ASCII.
abbrev pub codes : String → Text
codes String.[] = []
codes (String.◌∷◌ c s) = code c ∷ codes s

unfoldable pub text_eq : Text → Text → Bool
text_eq [] [] = true
text_eq [] (d ∷ t) = false
text_eq (c ∷ s) [] = false
text_eq (c ∷ s) (d ∷ t) = c == d && text_eq s t

pub text_eq_iff : (s t : Text) → (text_eq s t ≡ true) ↔ (s ≡ t)
unfolding text_eq
text_eq_iff [] [] = ground arith
text_eq_iff [] (d ∷ t) = ground arith
text_eq_iff (c ∷ s) [] = ground arith
text_eq_iff (c ∷ s) (d ∷ t) = ground (arith, text_eq_iff s t)

pub text_eq_refl : (s : Text) → text_eq s s ≡ true
text_eq_refl s = (text_eq_iff s s).1 refl

-- `s < t` on Go strings.
unfoldable pub text_lt : Text → Text → Bool
text_lt s [] = false
text_lt [] (d ∷ t) = true
text_lt (c ∷ s) (d ∷ t) = ltb c d || (c == d && text_lt s t)

-- strings.HasPrefix
unfoldable pub has_prefix : Text → Text → Bool
has_prefix s [] = true
has_prefix [] (d ∷ p) = false
has_prefix (c ∷ s) (d ∷ p) = c == d && has_prefix s p

unfoldable pub strip : Text → Text → Text
strip s [] = s
strip [] (d ∷ p) = []
strip (c ∷ s) (d ∷ p) = strip s p

-- strings.TrimPrefix
unfoldable pub trim_prefix : Text → Text → Text
unfolding has_prefix strip
trim_prefix s p = if has_prefix s p then strip s p else s

pub has_prefix-append : (p s : Text) → has_prefix (p ++ s) p ≡ true
unfolding has_prefix
has_prefix-append [] s = refl
has_prefix-append (c ∷ p) s = ground (arith, has_prefix-append p s)

strip-append : (p s : Text) → strip (p ++ s) p ≡ s
unfolding strip
strip-append [] s = refl
strip-append (c ∷ p) s = strip-append p s

pub trim_prefix-append : (p s : Text) → trim_prefix (p ++ s) p ≡ s
unfolding trim_prefix
trim_prefix-append p s = ground (arith, has_prefix-append p s, strip-append p s)

-- strings.Contains
unfoldable pub contains : Text → Text → Bool
unfolding has_prefix
contains [] p = has_prefix [] p
contains (c ∷ s) p = has_prefix (c ∷ s) p || contains s p

-- Whether a loop over the texts finds `k`.
unfoldable pub found : Text → List Text → Bool
unfolding text_eq
found k [] = false
found k (j ∷ l) = text_eq k j || found k l

found_mem : (k : Text) (l : List Text) → found k l ≡ true → Memᴰ k l
unfolding found
found_mem k [] h = absurd (cc)
found_mem k (j ∷ l) h = elim (Bool-cases (text_eq k j)) [
  | inl e ↦ Memᴰ.head ((text_eq_iff k j).0 e)
  | inr e ↦ Memᴰ.tail (found_mem k l (ground arith))
]

mem_found : (k : Text) (l : List Text) → Memᴰ k l → found k l ≡ true
unfolding found
mem_found k [] m = absurd (Memᴰ.not-nil m)
mem_found k (j ∷ l) (Memᴰ.head e) = rw ((text_eq_iff k j).1 e) refl
mem_found k (j ∷ l) (Memᴰ.tail m) = let h = mem_found k l m in ground arith

pub found_iff : (k : Text) (l : List Text) → (found k l ≡ true) ↔ Memᴰ k l
found_iff k l = (found_mem k l, mem_found k l)

-- Whether a list of allowed texts is given and lacks `k`.
unfoldable pub filtered : Text → List Text → Bool
unfolding found
filtered k [] = false
filtered k (j ∷ l) = not (found k (j ∷ l))

pub filtered_iff : (k : Text) (l : List Text) → (filtered k l ≡ false) ↔ ((l ≡ []) ⊎ Memᴰ k l)
unfolding filtered
filtered_iff k [] = (λ h. inl refl, λ h. refl)
filtered_iff k (j ∷ l) = (
  λ h. inr ((found_iff k (j ∷ l)).0 (ground arith)),
  λ h. elim h [ inl e ↦ absurd (cc) | inr m ↦ rw ((found_iff k (j ∷ l)).1 m) refl ],
)
