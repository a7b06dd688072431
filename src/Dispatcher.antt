-- ===== src/Dispatcher.antt =====
-- pkg/workqueue/dispatcher/dispatcher.go. The plan of a round (which keys are returned to the queue
-- and which are launched) and what becomes of one launched key.
pub mod Plan
pub mod Keys
pub mod Rounds
pub mod Launched
pub mod Handler
use terraform_cloudrun_glue.Base.{
  ℕ, zero, suc, ◌+◌, ◌-◌, ◌*◌, Bool, true, false, ◌&&◌, not, Option, none, some, List, [], ◌∷◌, map,
  if◌then◌else◌, is_some, ℤ, pos, Text, Dict, lookup, insert, keep, length, leb, ltb, ltb_ℤ, wrap64,
  ◌*ℤ◌,
}
use terraform_cloudrun_glue.Workqueue.{Options, Outcome, ok, err, panic, second}
use terraform_cloudrun_glue.Workqueue.Errors.{
  GoError, StatusLib, requeue_after, get_requeue_delay, get_non_retriable_details,
}
use terraform_cloudrun_glue.Inmem.{
  Wq, InProgressKey, QueuedKey, start, complete, deadletter, requeue, requeue_with_options,
}

-- What the dispatcher reads of an ObservedInProgressKey.
pub record Observed : Type 0 where
  pub name : Text
  pub orphaned : Bool

unfoldable pub active_keys : List Observed → Dict (Unit {0}) → Dict (Unit {0})
active_keys [] active = active
active_keys (x ∷ wip) active =
    active_keys wip (if x.orphaned then active else insert x.name tt active)

abbrev pub is_active : Dict (Unit {0}) → Text → Bool
is_active active name = is_some (lookup name active)

-- The launch loop, by recursion on the candidates: `slots` is openSlots - launched.
unfoldable pub launch : Dict (Unit {0}) → ℕ → List Text → List Text
launch active slots [] = []
launch active zero (name ∷ next) = []
launch active (suc slots) (name ∷ next) =
    let skipped = launch active (suc slots) next in
    let launched = name ∷ launch active slots next in
    if is_active active name then skipped else launched

-- The orphans that are requeued, and the keys that are launched.
unfoldable pub plan : List Observed → List Text → ℕ → List Observed × List Text
unfolding active_keys launch
plan wip next concurrency =
    let active = active_keys wip [] in
    let n = length active in
    (
      keep (λ x. x.orphaned) wip,
      if leb concurrency n then [] else launch active (concurrency - n) next,
    )

-- How the work on a key ends.
pub data Ending : Type 0 where
  completes : Ending
  requeues_after : ℤ → Ending
  deadletters : Ending
  requeues : Ending

module _ (lib : StatusLib) where
  abbrev pub Callback : Type 0
  Callback = Text → Options → Option (GoError lib.Status)

  -- What follows the callback; `none` is success.
  unfoldable pub ending : ℕ → ℕ → Option (GoError lib.Status) → Ending
  ending max_retry attempts none = completes
  ending max_retry attempts (some e) = elim (get_requeue_delay e) [
    | some delay ↦ requeues_after delay
    | none ↦
        if ltb 0 max_retry && leb max_retry attempts
        then deadletters
        else if is_some (get_non_retriable_details lib (some e))
        then completes
        else requeues
  ]

  unfoldable pub end_key : Ending → InProgressKey → ℤ → Wq → Outcome Wq
  end_key completes o now w = complete o w
  end_key (requeues_after delay) o now w = ok (
      requeue_with_options o (record { priority = o.priority; not_before = pos 0; delay = delay })
        now w)
  end_key deadletters o now w = ok (deadletter o w)
  end_key requeues o now w = ok (requeue o now w)

  -- The goroutine of one launched key on the in-memory queue: a start that fails ends it with no
  -- error, and `now` is the clock when the callback has returned.
  unfoldable pub run_key : ℕ → Callback → ℤ → QueuedKey → Wq → Outcome Wq
  unfolding ending end_key
  run_key max_retry f now q w = elim (start q w) [
    | err ↦ ok w
    | panic ↦ panic
    | ok (o, w') ↦
        end_key
          (ending max_retry o.attempts
            (f o.key (record { priority = o.priority; not_before = pos 0; delay = pos 0 })))
          o now w'
  ]

  -- ServiceCallback over the client's Process call, which answers with RequeueAfterSeconds or fails.
  pub data Response : Type 0 where
    answer : (requeue_after_seconds : ℤ) → Response
    failure : GoError lib.Status → Response

  unfoldable pub service_callback : (Text → ℤ → Response) → Callback
  service_callback process key opts = elim (process key opts.priority) [
    | failure e ↦ some e
    | answer seconds ↦
        if ltb_ℤ (pos 0) seconds
        then some (requeue_after (wrap64 (seconds *ℤ pos second)))
        else none
  ]
