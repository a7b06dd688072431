-- ===== src/Base/Decimal.antt =====
-- Decimal numerals: strconv.Itoa and FormatInt, fmt's %d and %08d, strconv.Atoi and ParseInt at
-- base 10 and 64 bits.
use Prim.Native.Nat.{ℕ, zero, suc, ◌+◌, ◌-◌, ◌*◌, ◌/◌, ◌%◌, ◌^◌, ◌≤◌, ◌<◌}
use mathlib.Core.Path.{◌≡◌, ap, ◌∙◌}
use mathlib.Core.Logic.{inl, inr}
use mathlib.Core.Bool.{Bool, true, false, ◌&&◌}
use mathlib.Core.Option.{Option, none, some}
use mathlib.Core.List.{[], ◌∷◌, ◌++◌}
use native.Mathlib.Omega.{arith}
use terraform_cloudrun_glue.Base.Tests.{ltb, leb, ◌==◌, if◌then◌else◌, Bool-cases}
use terraform_cloudrun_glue.Base.Lists.{length, length-append}
use terraform_cloudrun_glue.Base.Integers.{ℤ, pos, negsuc, pos_part, neg_part}
use terraform_cloudrun_glue.Base.Bytes.{Text}

-- The fuel is one more than the number, which has fewer digits than that.
unfoldable pub digits_fuel : ℕ → ℕ → Text
digits_fuel zero n = []
digits_fuel (suc f) n = elim (ltb n 10) [
  | true ↦ (48 + n) ∷ []
  | false ↦ digits_fuel f (n / 10) ++ (48 + n % 10) ∷ []
]

unfoldable pub format_nat : ℕ → Text
unfolding digits_fuel
format_nat n = digits_fuel (suc n) n

abbrev pub minus : ℕ
minus = b'-'

unfoldable pub format_int : ℤ → Text
unfolding format_nat
format_int (pos n) = format_nat n
format_int (negsuc n) = minus ∷ format_nat (suc n)

abbrev pub zeros : ℕ → Text
zeros zero = []
zeros (suc w) = b'0' ∷ zeros w

unfoldable pub zero_pad : ℕ → Text → Text
zero_pad w s = zeros (w - length s) ++ s

-- %08d: the sign counts as one of the eight columns.
unfoldable pub format_08d : ℤ → Text
unfolding zero_pad format_nat
format_08d (pos n) = zero_pad 8 (format_nat n)
format_08d (negsuc n) = minus ∷ zero_pad 7 (format_nat (suc n))

-- The value of a run of digits; `none` at the first byte that is no digit.
unfoldable pub parse_digits : ℕ → Text → Option ℕ
parse_digits acc [] = some acc
parse_digits acc (c ∷ s) =
    let rest = parse_digits (acc * 10 + (c - 48)) s in
    if leb b'0' c && leb c b'9' then rest else none

abbrev pub max_int64 : ℕ
max_int64 = 2 ^ 63 - 1

-- The value that strconv returns, and whether it returns no error: out of range it returns the
-- nearest int64 with an error.
abbrev pub signed_result : Bool → Option ℕ → ℤ × Bool
signed_result negative none = (pos 0, false)
signed_result false (some n) = if leb n max_int64 then (pos n, true) else (pos max_int64, false)
signed_result true (some zero) = (pos 0, true)
signed_result true (some (suc n)) =
    if leb n max_int64 then (negsuc n, true) else (negsuc max_int64, false)

abbrev pub parse_nat : Text → Option ℕ
unfolding parse_digits
parse_nat [] = none
parse_nat (c ∷ s) = parse_digits 0 (c ∷ s)

unfoldable pub parse_int : Text → ℤ × Bool
unfolding parse_digits
parse_int [] = (pos 0, false)
parse_int (c ∷ s) =
    if c == minus
    then signed_result true (parse_nat s)
    else if c == b'+'
    then signed_result false (parse_nat s)
    else signed_result false (parse_nat (c ∷ s))

parse_digits-snoc :
    (acc : ℕ) (s : Text) (d m : ℕ)
    → d < 10
    → parse_digits acc s ≡ some m
    → parse_digits acc (s ++ (48 + d) ∷ []) ≡ some (m * 10 + d)
unfolding parse_digits
parse_digits-snoc acc [] d m h e = ground arith
parse_digits-snoc acc (c ∷ s) d m h e =
    ground (arith, parse_digits-snoc (acc * 10 + (c - 48)) s d m h)

parse_digits-digits_fuel : (f n : ℕ) → n < f → parse_digits 0 (digits_fuel f n) ≡ some n
unfolding digits_fuel
parse_digits-digits_fuel zero n h = elim h [ ]
parse_digits-digits_fuel (suc f) n h = elim (Bool-cases (ltb n 10)) [
  | inl small ↦ rw (small, digits_fuel) (unfold parse_digits in ground arith)
  | inr large ↦
      rw (large, digits_fuel)
        (parse_digits-snoc 0 (digits_fuel f (n / 10)) (n % 10) (n / 10) (omega arith)
            (parse_digits-digits_fuel f (n / 10) (ground arith))
          ∙ ap some (omega arith))
]

digits_fuel-length-pos : (f n : ℕ) → 0 < length (digits_fuel (suc f) n)
unfolding digits_fuel
digits_fuel-length-pos f n = elim (Bool-cases (ltb n 10)) [
  | inl small ↦ rw (small, digits_fuel) (omega arith)
  | inr large ↦
      rw (large, digits_fuel)
        (omega (arith, length-append (digits_fuel f (n / 10)) ((48 + n % 10) ∷ [])))
]

parse_int-digits :
    (t : Text) (n : ℕ)
    → 0 < length t
    → parse_digits 0 t ≡ some n
    → parse_int t ≡ signed_result false (some n)
unfolding parse_int
parse_int-digits [] n h e = elim h [ ]
parse_int-digits (c ∷ s) n h e = ground arith

parse_int-minus :
    (t : Text) (n : ℕ)
    → 0 < length t
    → parse_digits 0 t ≡ some n
    → parse_int (minus ∷ t) ≡ signed_result true (some n)
unfolding parse_int
parse_int-minus [] n h e = elim h [ ]
parse_int-minus (c ∷ s) n h e = ground arith

-- What FormatInt prints ParseInt reads back, for every int64.
pub parse_int-format_int :
    (a : ℤ)
    → pos_part a ≤ max_int64
    → neg_part a ≤ max_int64 + 1
    → parse_int (format_int a) ≡ (a, true)
unfolding format_int
parse_int-format_int (pos n) h k =
    parse_int-digits _ n (digits_fuel-length-pos n n)
      (parse_digits-digits_fuel (suc n) n (omega arith))
    ∙ ground arith
parse_int-format_int (negsuc n) h k =
    parse_int-minus _ (suc n) (digits_fuel-length-pos (suc n) (suc n))
      (parse_digits-digits_fuel (suc (suc n)) (suc n) (omega arith))
    ∙ ground arith
