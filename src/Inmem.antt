-- ===== src/Inmem.antt =====
-- pkg/workqueue/inmem/inmem.go. Each operation holds the lock from its first access to its last,
-- so it is one step from state to state. `now` is the clock's reading during the operation.
pub mod Order
pub mod Steps
pub mod Unique
pub mod Owners
pub mod Retry
use terraform_cloudrun_glue.Base.{
  ℕ, suc, ◌+◌, Bool, true, false, ◌||◌, ◌&&◌, not, Option, none, some, List, [], ◌∷◌, ◌++◌, map,
  if◌then◌else◌, is_some, ℤ, pos, ◌+ℤ◌, ltb_ℤ, eqb_ℤ, Text, Dict, lookup, insert, delete, keep,
  top_loop,
}
use terraform_cloudrun_glue.Workqueue.{Options, no_options, backoff_delay, Outcome, ok, err, panic}

pub record QueueItem : Type 0 where
  pub options : Options
  pub open options use *
  pub attempts : ℕ
  pub queued : ℤ

-- The work queue, and what its operations change outside of it: which owner contexts have been
-- made, and which of them cancelled.
pub record Wq : Type 0 where
  pub limit : ℕ
  pub wip : Dict (Unit {0})
  pub queue : Dict QueueItem
  pub next_ctx : ℕ
  pub cancelled : List ℕ

-- `owner` is the owner's context with its cancel function; an observed key has none.
pub record InProgressKey : Type 0 where
  pub options : Options
  pub open options use *
  pub attempts : ℕ
  pub key : Text
  pub owner : Option ℕ

pub record QueuedKey : Type 0 where
  pub options : Options
  pub open options use *
  pub attempts : ℕ
  pub key : Text

unfoldable pub new_work_queue : ℕ → Wq
new_work_queue limit = record { limit = limit; wip = []; queue = []; next_ctx = 0; cancelled = [] }

-- The case where the key is queued already.
unfoldable pub dedupe : QueueItem → Options → QueueItem
dedupe qi opts =
    if ltb_ℤ qi.priority opts.priority
    then record qi { options = record (qi.options) { priority = opts.priority } }
    else if ltb_ℤ qi.not_before opts.not_before
    then record qi { options = record (qi.options) { not_before = opts.not_before } }
    else qi

unfoldable pub queue_key : Text → Options → ℤ → Wq → Wq
unfolding dedupe
queue_key key opts now w = elim (lookup key w.queue) [
  | none ↦ record w {
    queue = insert key (record { options = opts; attempts = 0; queued = now }) w.queue;
  }
  | some qi ↦ record w { queue = insert key (dedupe qi opts) w.queue }
]

-- The order in which keys are offered.
unfoldable pub ranks_before : Text × QueueItem → Text × QueueItem → Bool
ranks_before (_, a) (_, b) =
    if eqb_ℤ a.priority b.priority then ltb_ℤ a.queued b.queued else ltb_ℤ b.priority a.priority

abbrev pub is_ready : ℤ → Text × QueueItem → Bool
is_ready now (_, qi) = not (ltb_ℤ now qi.not_before)

abbrev pub to_queued_key : Text × QueueItem → QueuedKey
to_queued_key (k, qi) = record { options = qi.options; attempts = qi.attempts; key = k }

abbrev pub observe : Text × Unit {0} → InProgressKey
observe (k, _) = record { options = no_options; attempts = 0; key = k; owner = none }

-- The keys in progress, and the first `limit` ready keys.
unfoldable pub enumerate : ℤ → Wq → List InProgressKey × List QueuedKey
unfolding ranks_before
enumerate now w = (
  map observe w.wip,
  map to_queued_key (top_loop ranks_before w.limit [] (keep (is_ready now) w.queue)),
)

abbrev pub cancel : Option ℕ → Wq → Wq
cancel none w = w
cancel (some ctx) w = record w { cancelled = ctx ∷ w.cancelled }

-- The options that RequeueWithOptions puts in the queue.
unfoldable pub requeue_options : InProgressKey → Options → ℤ → Options
requeue_options o opts now =
    let priority = if eqb_ℤ opts.priority (pos 0) then o.priority else opts.priority in
    let not_before =
      if ltb_ℤ (pos 0) opts.delay
      then now +ℤ opts.delay
      else if ltb_ℤ (pos 0) priority
      then now +ℤ backoff_delay (pos o.attempts)
      else opts.not_before in
    record { priority = priority; not_before = not_before; delay = opts.delay }

-- The case where the key was queued again while it was in progress.
unfoldable pub merge : QueueItem → Options → QueueItem
merge qi opts = record qi {
  options = record (qi.options) {
    priority = if ltb_ℤ qi.priority opts.priority then opts.priority else qi.priority;
    not_before = if ltb_ℤ qi.not_before opts.not_before then opts.not_before else qi.not_before;
  };
}

unfoldable pub requeued_item : Option QueueItem → InProgressKey → Options → ℤ → QueueItem
unfolding requeue_options merge
requeued_item none o opts now = record {
  options = requeue_options o opts now;
  attempts = o.attempts;
  queued = now;
}
requeued_item (some qi) o opts now = merge qi (requeue_options o opts now)

unfoldable pub requeue_with_options : InProgressKey → Options → ℤ → Wq → Wq
unfolding requeued_item
requeue_with_options o opts now w =
    let w' = cancel o.owner w in
    record w' {
      queue = insert o.key (requeued_item (lookup o.key w.queue) o opts now) w.queue;
      wip = delete o.key w.wip;
    }

unfoldable pub requeue : InProgressKey → ℤ → Wq → Wq
unfolding requeue_with_options
requeue o now w = requeue_with_options o no_options now w

unfoldable pub deadletter : InProgressKey → Wq → Wq
deadletter o w = let w' = cancel o.owner w in record w' { wip = delete o.key w.wip }

-- Calls the owner's cancel function with no test that there is one.
unfoldable pub complete : InProgressKey → Wq → Outcome Wq
complete o w = elim o.owner [
  | none ↦ panic
  | some ctx ↦ ok (record w { cancelled = ctx ∷ w.cancelled; wip = delete o.key w.wip })
]

-- The key that a successful start returns, and the queue after it.
abbrev pub started : QueuedKey → Wq → InProgressKey × Wq
started q w = (
  record { options = q.options; attempts = q.attempts + 1; key = q.key; owner = some w.next_ctx },
  record w { queue = delete q.key w.queue; wip = insert q.key tt w.wip; next_ctx = w.next_ctx + 1 },
)

unfoldable pub start : QueuedKey → Wq → Outcome (InProgressKey × Wq)
start q w =
    if is_some (lookup q.key w.wip)
    then err
    else if is_some (lookup q.key w.queue)
    then ok (started q w)
    else err
