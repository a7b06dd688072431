-- ===== src/Base/Columns.antt =====
-- The order of decimal numerals as texts: numerals of one width are ordered as their numbers are,
-- and one that is not padded stands above all that begin with a zero.
use Prim.Native.Nat.{ℕ, zero, suc, ◌+◌, ◌-◌, ◌/◌, ◌%◌, ◌^◌, ◌≤◌, ◌<◌}
use mathlib.Core.Path.{◌≡◌, refl, sym, ap, ◌∙◌}
use mathlib.Core.Logic.{inl, inr}
use mathlib.Core.Bool.{false, ◌&&◌, ◌||◌}
use mathlib.Core.List.{[], ◌∷◌, ◌++◌, append_assoc, append-nil}
use native.Mathlib.Nat.{pow-suc}
use native.Mathlib.Omega.{arith}
use terraform_cloudrun_glue.Base.Tests.{ltb, ◌==◌, Bool-cases}
use terraform_cloudrun_glue.Base.Lists.{length, length-append}
use terraform_cloudrun_glue.Base.Integers.{pos}
use terraform_cloudrun_glue.Base.Bytes.{Text, text_lt, text_eq}
use terraform_cloudrun_glue.Base.Decimal.{digits_fuel, zeros, zero_pad, format_08d, format_int}

-- The numeral of fixed width, of which `%08d` prints the one of width 8.
columns : ℕ → ℕ → Text
columns zero n = []
columns (suc w) n = columns w (n / 10) ++ (48 + n % 10) ∷ []

length-columns : (w n : ℕ) → length (columns w n) ≡ w
unfolding columns
length-columns zero n = refl
length-columns (suc w) n =
    omega
      (arith, length-append (columns w (n / 10)) ((48 + n % 10) ∷ []), length-columns w (n / 10))

text_eq-snoc :
    (s t : Text) (c d : ℕ)
    → length s ≡ length t
    → text_eq (s ++ c ∷ []) (t ++ d ∷ []) ≡ (text_eq s t && c == d)
unfolding text_eq
text_eq-snoc [] [] c d h = ground arith
text_eq-snoc [] (y ∷ t) c d h = absurd (omega arith)
text_eq-snoc (x ∷ s) [] c d h = absurd (omega arith)
text_eq-snoc (x ∷ s) (y ∷ t) c d h = ground (arith, text_eq-snoc s t c d)

text_lt-snoc :
    (s t : Text) (c d : ℕ)
    → length s ≡ length t
    → text_lt (s ++ c ∷ []) (t ++ d ∷ []) ≡ (text_lt s t || (text_eq s t && ltb c d))
unfolding text_lt text_eq
text_lt-snoc [] [] c d h = ground arith
text_lt-snoc [] (y ∷ t) c d h = absurd (omega arith)
text_lt-snoc (x ∷ s) [] c d h = absurd (omega arith)
text_lt-snoc (x ∷ s) (y ∷ t) c d h = ground (arith, text_lt-snoc s t c d)

pow_down : (w a : ℕ) → a < 10 ^ suc w → a / 10 < 10 ^ w
pow_down w a h = omega (arith, pow-suc 10 w)

text_eq-columns :
    (w a b : ℕ) → a < 10 ^ w → b < 10 ^ w → text_eq (columns w a) (columns w b) ≡ (a == b)
unfolding columns
text_eq-columns zero a b h k = unfold text_eq in ground arith
text_eq-columns (suc w) a b h k =
    text_eq-snoc _ _ (48 + a % 10) (48 + b % 10)
      (length-columns w (a / 10) ∙ sym (length-columns w (b / 10)))
    ∙ rw (text_eq-columns w (a / 10) (b / 10) (pow_down w a h) (pow_down w b k)) (ground arith)

text_lt-columns :
    (w a b : ℕ) → a < 10 ^ w → b < 10 ^ w → text_lt (columns w a) (columns w b) ≡ ltb a b
unfolding columns
text_lt-columns zero a b h k = unfold text_lt in ground arith
text_lt-columns (suc w) a b h k =
    text_lt-snoc _ _ (48 + a % 10) (48 + b % 10)
      (length-columns w (a / 10) ∙ sym (length-columns w (b / 10)))
    ∙ rw
        (
          text_eq-columns w (a / 10) (b / 10) (pow_down w a h) (pow_down w b k),
          text_lt-columns w (a / 10) (b / 10) (pow_down w a h) (pow_down w b k),
        )
        (ground arith)

zeros-snoc : (w : ℕ) → zeros w ++ b'0' ∷ [] ≡ zeros (suc w)
zeros-snoc zero = refl
zeros-snoc (suc w) = ap (◌∷◌ b'0') (zeros-snoc w)

columns-zero : (w : ℕ) → columns w 0 ≡ zeros w
unfolding columns
columns-zero zero = refl
columns-zero (suc w) = ap (λ l. l ++ b'0' ∷ []) (columns-zero w) ∙ zeros-snoc w

pad-snoc : (w : ℕ) (s : Text) (d : ℕ) → zero_pad (suc w) (s ++ d ∷ []) ≡ zero_pad w s ++ d ∷ []
unfolding zero_pad
pad-snoc w s d =
    let same : suc w - length (s ++ d ∷ []) ≡ w - length s =
      omega (arith, length-append s (d ∷ [])) in
    rw same (sym (append_assoc (zeros (w - length s)) s (d ∷ [])))

pad_nil : (w : ℕ) → zero_pad w [] ≡ zeros w
unfolding zero_pad
pad_nil w = let e : w - 0 ≡ w = omega arith in rw e (append-nil (zeros w))

columns-pad : (w f n : ℕ) → n < f → n < 10 ^ w → 0 < w → columns w n ≡ zero_pad w (digits_fuel f n)
unfolding columns digits_fuel
columns-pad zero f n h k p = elim p [ ]
columns-pad (suc w) zero n h k p = elim h [ ]
columns-pad (suc w) (suc f) n h k p = elim (Bool-cases (ltb n 10)) [
  | inl small ↦
      let quotient : n / 10 ≡ 0 = ground arith in
      let digit : n % 10 ≡ n = ground arith in
      rw (small, digits_fuel)
        (rw (quotient, digit, columns-zero w) (sym (pad-snoc w [] (48 + n) ∙ rw (pad_nil w) refl)))
  | inr large ↦
      rw (large, digits_fuel)
        (ap (λ l. l ++ (48 + n % 10) ∷ [])
            (columns-pad w f (n / 10) (ground arith) (pow_down w n k) (wide w k large))
          ∙ sym (pad-snoc w (digits_fuel f (n / 10)) (48 + n % 10)))
]
  where
    wide : (w : ℕ) → n < 10 ^ suc w → ltb n 10 ≡ false → 0 < w
    wide zero k large = ground arith
    wide (suc w) k large = omega arith

format_08d-columns : (n : ℕ) → n < 10 ^ 8 → format_08d (pos n) ≡ columns 8 n
unfolding format_08d
format_08d-columns n h = sym (columns-pad 8 (suc n) n (omega arith) h (omega arith))

-- Below eight digits, the texts that `%08d` prints are ordered as the numbers are.
pub text_lt-format_08d :
    (a b : ℕ)
    → a < 10 ^ 8
    → b < 10 ^ 8
    → text_lt (format_08d (pos a)) (format_08d (pos b)) ≡ ltb a b
text_lt-format_08d a b h k =
    rw (format_08d-columns a h, format_08d-columns b k) (text_lt-columns 8 a b h k)

pub text_eq-format_08d :
    (a b : ℕ)
    → a < 10 ^ 8
    → b < 10 ^ 8
    → text_eq (format_08d (pos a)) (format_08d (pos b)) ≡ (a == b)
text_eq-format_08d a b h k =
    rw (format_08d-columns a h, format_08d-columns b k) (text_eq-columns 8 a b h k)

abbrev first : Text → ℕ
first [] = 0
first (c ∷ s) = c

first-append : (s t : Text) → 0 < first s → first (s ++ t) ≡ first s
first-append [] t h = elim h [ ]
first-append (c ∷ s) t h = refl

first-digits_fuel : (f n : ℕ) → n < f → 0 < n → 49 ≤ first (digits_fuel f n)
unfolding digits_fuel
first-digits_fuel zero n h p = elim h [ ]
first-digits_fuel (suc f) n h p = elim (Bool-cases (ltb n 10)) [
  | inl small ↦ rw (small, digits_fuel) (omega arith)
  | inr large ↦
      let ih = first-digits_fuel f (n / 10) (ground arith) (ground arith) in
      rw (large, digits_fuel)
        (omega (arith, ih, first-append (digits_fuel f (n / 10)) ((48 + n % 10) ∷ [])))
]

first-columns : (w n : ℕ) → n < 10 ^ w → first (columns (suc w) n) ≡ 48
unfolding columns
first-columns zero n h = omega arith
first-columns (suc w) n h =
    let ih = first-columns w (n / 10) (pow_down w n h) in
    first-append (columns (suc w) (n / 10)) _ (omega (arith, ih)) ∙ ih

text_lt-first : (s t : Text) → first t < first s → text_lt s t ≡ false
unfolding text_lt
text_lt-first s [] h = ground arith
text_lt-first [] (d ∷ t) h = elim h [ ]
text_lt-first (c ∷ s) (d ∷ t) h = ground arith

-- The numeral of a positive number, not padded, is never below a padded numeral of up to seven
-- digits, whichever number is the larger.
pub text_lt-format_int-format_08d :
    (p q : ℕ) → 0 < p → q < 10 ^ 7 → text_lt (format_int (pos p)) (format_08d (pos q)) ≡ false
unfolding format_int
text_lt-format_int-format_08d p q h k = rw (format_08d-columns q (omega arith)) (
    text_lt-first _ (columns 8 q)
      (omega (arith, first-columns 7 q k, first-digits_fuel (suc p) p (omega arith) h)))
