-- ===== src/Tests/Clocks.antt =====
-- A clock whose texts are one number, the seconds.
use terraform_cloudrun_glue.Base.{
  ◌*◌, ◌/◌, ◌≤◌, ◌≡◌, refl, false, Option, none, some, [], ◌∷◌, ℤ, pos, negsuc, ◌≤ℤ◌, ◌<ℤ◌, ◌+ℤ◌,
  +ℤ_parts, Text, text_lt, arith,
}
use terraform_cloudrun_glue.Workqueue.{second}
use terraform_cloudrun_glue.Gcs.{TimeLib}
use terraform_cloudrun_glue.Gcs.Metadata.{TimeLaws}

abbrev printed : ℤ → Text
printed (pos n) = (n / second) ∷ []
printed (negsuc n) = 0 ∷ []

abbrev read : Text → Option ℤ
read [] = none
read (c ∷ s) = some (pos (c * second))

abbrev pub seconds : TimeLib
seconds = record { format = printed; parse = read; unix = λ n. n }

read-printed :
    (t : ℤ) → pos 0 ≤ℤ t → (u : ℤ) × (read (printed t) ≡ some u) × (u ≤ℤ t) × (t <ℤ u +ℤ pos second)
read-printed (pos n) h = (
  pos (n / second * second),
  refl,
  omega arith,
  omega (arith, +ℤ_parts (pos (n / second * second)) (pos second)),
)
read-printed (negsuc n) h = absurd (omega arith)

text_lt-printed : (s t : ℤ) → pos 0 ≤ℤ s → s ≤ℤ t → text_lt (printed t) (printed s) ≡ false
unfolding text_lt
text_lt-printed (pos m) (pos n) h k = let le : m / second ≤ n / second = omega arith in ground arith
text_lt-printed (pos m) (negsuc n) h k = absurd (omega arith)
text_lt-printed (negsuc m) t h k = absurd (omega arith)

pub seconds-TimeLaws : TimeLaws seconds
seconds-TimeLaws = record {
  parse-format = λ t h k. read-printed t h;
  text_lt-format = λ s t h k l. text_lt-printed s t h k;
}
