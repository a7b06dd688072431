-- ===== src/Tests/Queues.antt =====
-- The in-memory queue at concrete inputs.
use terraform_cloudrun_glue.Base.{
  ◌≡◌, refl, true, none, some, [], ◌∷◌, map, pos, Text, codes, lookup, insert, delete, subst, List,
  false, if◌then◌else◌, keep, ltb_ℤ, ◌≤ℤ◌, is_some, IsTop, ◌⊎◌, ◌+ℤ◌, text_eq,
}
use terraform_cloudrun_glue.Workqueue.{Options, no_options, ok, err, backoff_delay}
use terraform_cloudrun_glue.Inmem.{
  Wq, QueueItem, QueuedKey, InProgressKey, new_work_queue, queue_key, start, requeue, enumerate,
  ranks_before, is_ready, to_queued_key,
}
use terraform_cloudrun_glue.Inmem.Order.{enumerate-IsTop}
use terraform_cloudrun_glue.Inmem.Steps.{Op, step, Raised, Starts, step-Stays, start_cases}
use terraform_cloudrun_glue.Inmem.Owners.{System, Step, Reach, Inv, Reach-Inv}
use terraform_cloudrun_glue.Inmem.Retry.{requeue-start}

abbrev pub key_a : Text
key_a = codes "a"

abbrev pub key_b : Text
key_b = codes "b"

abbrev pub urgent : Options
urgent = record { priority = pos 5; not_before = pos 0; delay = pos 0 }

abbrev later : Options
later = record { priority = pos 9; not_before = pos 70; delay = pos 0 }

-- Two keys in the backlog.
abbrev pub two_keys : Wq
two_keys = record {
  limit = 1;
  wip = [];
  queue =
      (key_a, record { options = no_options; attempts = 0; queued = pos 10 })
      ∷ (key_b, record { options = urgent; attempts = 0; queued = pos 20 })
      ∷ [];
  next_ctx = 0;
  cancelled = [];
}

two_keys_made :
    queue_key key_b urgent (pos 20) (queue_key key_a no_options (pos 10) (new_work_queue 1))
    ≡ two_keys
unfolding queue_key new_work_queue lookup insert text_eq
two_keys_made = refl

abbrev pub handle_b : QueuedKey
handle_b = record { options = urgent; attempts = 0; key = key_b }

abbrev owner_b : InProgressKey
owner_b = record { options = urgent; attempts = 1; key = key_b; owner = some 0 }

abbrev b_started : Wq
b_started = record two_keys {
  wip = (key_b, tt) ∷ [];
  queue = (key_a, record { options = no_options; attempts = 0; queued = pos 10 }) ∷ [];
  next_ctx = 1;
}

two_keys_started : start handle_b two_keys ≡ ok (owner_b, b_started)
unfolding start lookup insert text_eq delete
two_keys_started = refl

enumerate-IsTop_example :
    (top : List (Text × QueueItem)) × ((enumerate (pos 30) two_keys).1 ≡ map to_queued_key top)
    × IsTop ranks_before 1 (keep (is_ready (pos 30)) two_keys.queue) top
enumerate-IsTop_example = enumerate-IsTop (pos 30) two_keys

-- The key of the backlog that is asked for again.
abbrev item_b : QueueItem
item_b = record { options = urgent; attempts = 0; queued = pos 20 }

item_b_queued : lookup key_b two_keys.queue ≡ some item_b
unfolding lookup text_eq
item_b_queued = refl

step-Stays_example :
    (b : QueueItem) × (lookup key_b (step (Op.queues key_b later (pos 40)) two_keys).queue ≡ some b)
    × Raised item_b b
step-Stays_example =
    step-Stays key_b item_b (Op.queues key_b later (pos 40)) two_keys item_b_queued (λ h. h)

start_cases_example :
    ((start handle_b two_keys ≡ err)
      × ((is_some (lookup key_b two_keys.wip) ≡ true)
          ⊎ (is_some (lookup key_b two_keys.queue) ≡ false)))
    ⊎ ((o : InProgressKey) × (w : Wq) × (start handle_b two_keys ≡ ok (o, w))
        × Starts handle_b two_keys o w)
start_cases_example = start_cases handle_b two_keys

abbrev b_at_work : System
b_at_work = record { wq = b_started; live = owner_b ∷ [] }

b_at_work-Reach : Reach 1 b_at_work
b_at_work-Reach =
    let queued =
      subst (λ w. Reach 1 (record { wq = w; live = [] })) two_keys_made
        (Reach.next (Reach.next Reach.here (Step.queues _ key_a no_options (pos 10)))
          (Step.queues _ key_b urgent (pos 20))) in
    Reach.next queued (Step.starts _ handle_b owner_b b_started two_keys_started)

Reach-Inv_example : Inv b_at_work
Reach-Inv_example = Reach-Inv b_at_work-Reach

requeue-start_example :
    (lookup key_b (requeue owner_b (pos 50) b_started).wip ≡ none)
    × (lookup key_b b_started.queue ≡ none
        → lookup key_b (requeue owner_b (pos 50) b_started).queue
          ≡ some (record {
            options = record {
              priority = pos 5;
              not_before = if ltb_ℤ (pos 0) (pos 5) then pos 50 +ℤ backoff_delay (pos 1) else pos 0;
              delay = pos 0;
            };
            attempts = 1;
            queued = pos 50;
          }))
    × ((qi : QueueItem)
        → lookup key_b b_started.queue ≡ some qi
        → (b : QueueItem) × (lookup key_b (requeue owner_b (pos 50) b_started).queue ≡ some b)
          × (b.attempts ≡ qi.attempts)
          × (b.queued ≡ qi.queued)
          × (qi.priority ≤ℤ b.priority)
          × (pos 5 ≤ℤ b.priority))
requeue-start_example =
    requeue-start handle_b two_keys owner_b b_started b_started (pos 50) two_keys_started
