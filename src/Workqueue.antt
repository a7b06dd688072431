-- ===== src/Workqueue.antt =====
-- pkg/workqueue/interface.go: the options of a key and the two backoff constants.
-- Times and durations are nanoseconds as integers: time.Time{} is 0.
pub mod Errors
use terraform_cloudrun_glue.Base.{
  ℕ, ◌+◌, ◌*◌, ◌≤◌, ◌≡◌, refl, Bool, true, false, arith, if◌then◌else◌, ℤ, pos, negsuc, pos_part,
  neg_part, ◌+ℤ◌, ◌*ℤ◌, ◌≤ℤ◌, ltb_ℤ, wrap64,
}

abbrev pub second : ℕ
second = 1_000_000_000

abbrev pub backoff_period : ℕ
backoff_period = 30 * second

abbrev pub maximum_backoff_period : ℕ
maximum_backoff_period = 10 * 60 * second

pub record Options : Type 0 where
  pub priority : ℤ
  pub not_before : ℤ
  pub delay : ℤ

abbrev pub no_options : Options
no_options = record { priority = pos 0; not_before = pos 0; delay = pos 0 }

-- The delay before a retry: attempts * BackoffPeriod in int64 arithmetic, at most the cap. Both
-- queues compute it with these same lines.
unfoldable pub backoff_delay : ℤ → ℤ
backoff_delay attempts =
    let d = wrap64 (attempts *ℤ pos backoff_period) in
    if ltb_ℤ (pos maximum_backoff_period) d then pos maximum_backoff_period else d

-- What an operation of a queue gives: a value, an error, or a panic (a call of a nil function).
pub data Outcome {ℓ} (A : Type ℓ) : Type ℓ where
  ok : A → Outcome A
  err : Outcome A
  panic : Outcome A
