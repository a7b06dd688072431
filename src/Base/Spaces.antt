-- ===== src/Base/Spaces.antt =====
-- strings.TrimSpace, HasSuffix and TrimSuffix. The right end of a text is the left end of the reversed one.
use Prim.Native.Nat.{ℕ, zero, suc, ◌+◌}
use mathlib.Core.Path.{◌≡◌, refl, sym, ap, subst, ◌∙◌}
use mathlib.Core.Logic.{inl, inr}
use mathlib.Core.Bool.{Bool, true, false, ◌&&◌}
use mathlib.Core.List.{List, [], ◌∷◌, ◌++◌, map, reverse, reverse-append, reverse-reverse}
use native.Mathlib.Omega.{arith}
use terraform_cloudrun_glue.Base.Tests.{ltb, leb, ◌==◌, if◌then◌else◌, Bool-cases}
use terraform_cloudrun_glue.Base.Lists.{length, length-append, drop}
use terraform_cloudrun_glue.Base.Bytes.{Text, has_prefix, trim_prefix, trim_prefix-append}

-- The encodings in UTF-8 of the runes that unicode.IsSpace accepts.
abbrev pub spaces : List Text
spaces =
    (9 ∷ [])
    ∷ (10 ∷ [])
    ∷ (11 ∷ [])
    ∷ (12 ∷ [])
    ∷ (13 ∷ [])
    ∷ (32 ∷ [])
    ∷ (194 ∷ 133 ∷ [])
    ∷ (194 ∷ 160 ∷ [])
    ∷ (225 ∷ 154 ∷ 128 ∷ [])
    ∷ (226 ∷ 128 ∷ 128 ∷ [])
    ∷ (226 ∷ 128 ∷ 129 ∷ [])
    ∷ (226 ∷ 128 ∷ 130 ∷ [])
    ∷ (226 ∷ 128 ∷ 131 ∷ [])
    ∷ (226 ∷ 128 ∷ 132 ∷ [])
    ∷ (226 ∷ 128 ∷ 133 ∷ [])
    ∷ (226 ∷ 128 ∷ 134 ∷ [])
    ∷ (226 ∷ 128 ∷ 135 ∷ [])
    ∷ (226 ∷ 128 ∷ 136 ∷ [])
    ∷ (226 ∷ 128 ∷ 137 ∷ [])
    ∷ (226 ∷ 128 ∷ 138 ∷ [])
    ∷ (226 ∷ 128 ∷ 168 ∷ [])
    ∷ (226 ∷ 128 ∷ 169 ∷ [])
    ∷ (226 ∷ 128 ∷ 175 ∷ [])
    ∷ (226 ∷ 129 ∷ 159 ∷ [])
    ∷ (227 ∷ 128 ∷ 128 ∷ [])
    ∷ []

-- The length of the one of the texts with which `s` begins, 0 if there is none.
unfoldable pub leading : List Text → Text → ℕ
unfolding has_prefix
leading [] s = 0
leading (w ∷ ws) s = if has_prefix s w then length w else leading ws s

-- The fuel is the length of the text, since each round removes a byte at least.
unfoldable pub trim_leading : List Text → ℕ → Text → Text
unfolding leading
trim_leading ws zero s = s
trim_leading ws (suc fuel) s = elim (leading ws s) [
  | zero ↦ s
  | suc n ↦ trim_leading ws fuel (drop (suc n) s)
]

unfoldable pub trim_left_space : Text → Text
unfolding trim_leading
trim_left_space s = trim_leading spaces (length s) s

unfoldable pub trim_right_space : Text → Text
unfolding trim_leading
trim_right_space s = reverse (trim_leading (map reverse spaces) (length s) (reverse s))

unfoldable pub trim_space : Text → Text
unfolding trim_left_space trim_right_space
trim_space s = trim_right_space (trim_left_space s)

unfoldable pub has_suffix : Text → Text → Bool
unfolding has_prefix
has_suffix s p = has_prefix (reverse s) (reverse p)

unfoldable pub trim_suffix : Text → Text → Text
unfolding trim_prefix
trim_suffix s p = reverse (trim_prefix (reverse s) (reverse p))

-- A byte that is printed, of which no space begins or ends.
abbrev pub is_visible : ℕ → Bool
is_visible c = leb 33 c && ltb c 127

abbrev all_hidden : List Text → Bool
all_hidden [] = true
all_hidden ([] ∷ ws) = false
all_hidden ((c ∷ w) ∷ ws) = if is_visible c then false else all_hidden ws

leading-visible :
    (ws : List Text) (c : ℕ) (s : Text)
    → all_hidden ws ≡ true
    → is_visible c ≡ true
    → leading ws (c ∷ s) ≡ 0
unfolding leading has_prefix
leading-visible [] c s h v = refl
leading-visible ([] ∷ ws) c s h v = absurd (cc)
leading-visible ((d ∷ w) ∷ ws) c s h v = elim (Bool-cases (is_visible d)) [
  | inl e ↦ absurd (hidden (is_visible d) e h)
  | inr e ↦
      let other : (c == d) ≡ false = ground arith in
      rw other (leading-visible ws c s (rest (is_visible d) e h) v)
]
  where
    hidden : (b : Bool) → b ≡ true → (if b then false else all_hidden ws) ≡ true → ⊥
    hidden true e h = let t = h in cc
    hidden false e h = let t = e in cc

    rest :
        (b : Bool) → b ≡ false → (if b then false else all_hidden ws) ≡ true → all_hidden ws ≡ true
    rest true e h = let t = e in absurd (cc)
    rest false e h = h

abbrev begins_visible : Text → Bool
begins_visible [] = false
begins_visible (c ∷ s) = is_visible c

begins_visible-append : (s t : Text) → begins_visible s ≡ true → begins_visible (s ++ t) ≡ true
begins_visible-append [] t h = let f = h in absurd (cc)
begins_visible-append (c ∷ s) t h = h

-- Neither the first byte nor the last is one of a space.
abbrev pub IsTight : Text → Type 0
IsTight s = (begins_visible s ≡ true) × (begins_visible (reverse s) ≡ true)

pub IsTight-around :
    (a s b : Text)
    → begins_visible a ≡ true
    → begins_visible (reverse b) ≡ true
    → IsTight (a ++ (s ++ b))
IsTight-around a s b h k = (
  begins_visible-append a (s ++ b) h,
  subst (λ t. begins_visible t ≡ true)
      (sym (reverse-append a (s ++ b) ∙ ap (λ t. t ++ reverse a) (reverse-append s b)))
      (begins_visible-append (reverse b ++ reverse s) (reverse a)
        (begins_visible-append (reverse b) (reverse s) k)),
)

trim_leading-visible :
    (ws : List Text) (fuel : ℕ) (s : Text)
    → all_hidden ws ≡ true
    → begins_visible s ≡ true
    → trim_leading ws fuel s ≡ s
unfolding trim_leading
trim_leading-visible ws zero s h v = refl
trim_leading-visible ws (suc fuel) [] h v = let f = v in absurd (cc)
trim_leading-visible ws (suc fuel) (c ∷ s) h v = rw (leading-visible ws c s h v, trim_leading) refl

trim_leading-line :
    (ws : List Text) (fuel : ℕ) (s : Text)
    → leading ws (10 ∷ s) ≡ 1
    → all_hidden ws ≡ true
    → begins_visible s ≡ true
    → trim_leading ws (suc fuel) (10 ∷ s) ≡ s
unfolding trim_leading
trim_leading-line ws fuel s e h v = rw (e, trim_leading) (trim_leading-visible ws fuel s h v)

leading-spaces : (s : Text) → leading spaces (10 ∷ s) ≡ 1
unfolding leading has_prefix
leading-spaces s = refl

leading-reversed : (s : Text) → leading (map reverse spaces) (10 ∷ s) ≡ 1
unfolding leading has_prefix
leading-reversed s = refl

-- A text on a line of its own is trimmed to itself.
pub trim_space-line : (s : Text) → IsTight s → trim_space (10 ∷ (s ++ 10 ∷ [])) ≡ s
unfolding trim_space trim_left_space trim_right_space
trim_space-line s (v, w) =
    ap trim_right_space (
      trim_leading-line spaces (length (s ++ 10 ∷ [])) (s ++ 10 ∷ [])
        (leading-spaces (s ++ 10 ∷ [])) refl (begins_visible-append s (10 ∷ []) v))
    ∙ ap reverse (
        ap (trim_leading (map reverse spaces) (length (s ++ 10 ∷ []))) (reverse-append s (10 ∷ []))
        ∙ right (length (s ++ 10 ∷ [])) (length-append s (10 ∷ [])))
    ∙ reverse-reverse s
  where
    right :
        (n : ℕ)
        → n ≡ length s + 1
        → trim_leading (map reverse spaces) n (10 ∷ reverse s) ≡ reverse s
    right zero e = absurd (omega arith)
    right (suc n) e =
        trim_leading-line (map reverse spaces) n (reverse s) (leading-reversed (reverse s)) refl w

pub trim_suffix-append : (s p : Text) → trim_suffix (s ++ p) p ≡ s
unfolding trim_suffix
trim_suffix-append s p =
    ap (λ t. reverse (trim_prefix t (reverse p))) (reverse-append s p)
    ∙ ap reverse (trim_prefix-append (reverse p) (reverse s))
    ∙ reverse-reverse s
