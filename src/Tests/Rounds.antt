-- ===== src/Tests/Rounds.antt =====
-- The dispatcher at concrete inputs.
use terraform_cloudrun_glue.Base.{
  ℕ, ◌≡◌, refl, true, false, not, none, some, List, [], ◌∷◌, ◌-◌, ◌⊎◌, pos, codes, lookup, take,
  keep, is_some, length, text_eq, insert, top_loop, push_top, sort_by, insert_all, insert_by, All,
  Text, ℤ,
}
use terraform_cloudrun_glue.Workqueue.{ok, no_options}
use terraform_cloudrun_glue.Workqueue.Errors.{plain, get_requeue_delay, get_non_retriable_details}
use terraform_cloudrun_glue.Inmem.{Wq, enumerate, ranks_before, new_work_queue, queue_key, dedupe}
use terraform_cloudrun_glue.Inmem.Steps.{Op, step}
use terraform_cloudrun_glue.Inmem.Unique.{steps}
use terraform_cloudrun_glue.Dispatcher.{
  Observed, active_keys, is_active, plan, requeues, Callback, ending, run_key,
}
use terraform_cloudrun_glue.Dispatcher.Plan.{plan-take}
use terraform_cloudrun_glue.Dispatcher.Keys.{IsLeft, run_key_lem}
use terraform_cloudrun_glue.Dispatcher.Rounds.{handle_round, launch_keys, IsReleased}
use terraform_cloudrun_glue.Dispatcher.Launched.{launched, handle_round-releases}
use terraform_cloudrun_glue.Dispatcher.Handler.{State, Pc, idle, set_pc, Step, Reach}
use terraform_cloudrun_glue.Dispatcher.Handler.Locks.{
  holds_work, holds_wait, Reach-exclusive, wait_taken-served, Proceeds, Reach-progress,
}
use terraform_cloudrun_glue.Tests.Queues.{key_a, key_b, two_keys, handle_b, urgent}
use terraform_cloudrun_glue.Tests.Statuses.{texts}

-- One key in progress, one orphan, and three candidates.
abbrev observed : List Observed
observed = record { name = key_a; orphaned = false } ∷ record { name = key_b; orphaned = true } ∷ []

plan-take_example :
    (plan observed (key_a ∷ key_b ∷ codes "c" ∷ []) 2).1
    ≡ take
        (2 - length (active_keys observed []))
        (keep (λ k. not (is_active (active_keys observed []) k)) (key_a ∷ key_b ∷ codes "c" ∷ []))
plan-take_example = plan-take observed (key_a ∷ key_b ∷ codes "c" ∷ []) 2

-- A callback that always fails.
abbrev failing : Callback texts
failing key opts = some (plain (codes "down"))

b_free : lookup key_b two_keys.wip ≡ none
unfolding lookup
b_free = refl

b_in_backlog : is_some (lookup key_b two_keys.queue) ≡ true
unfolding lookup text_eq
b_in_backlog = refl

run_key_lem_example :
    (w : Wq) × (run_key texts 3 failing (pos 40) handle_b two_keys ≡ ok w)
    × (lookup key_b w.wip ≡ none)
    × IsLeft texts 3 1
        (pos 5)
        (pos 40)
        (failing key_b (record { priority = pos 5; not_before = pos 0; delay = pos 0 }))
        (lookup key_b w.queue)
run_key_lem_example = run_key_lem texts 3 failing (pos 40) handle_b two_keys b_free b_in_backlog

-- Every callback returns at the same time.
abbrev at_40 : Text → ℤ
at_40 key = pos 40

-- Both keys are queued, and the round launches the one of higher priority.
abbrev two_calls : List Op
two_calls = Op.queues key_a no_options (pos 10) ∷ Op.queues key_b urgent (pos 20) ∷ []

two_calls-launched : launched 4 (pos 60) (steps two_calls (new_work_queue 1)) ≡ handle_b ∷ []
unfolding steps step queue_key dedupe new_work_queue launched enumerate ranks_before top_loop
    push_top sort_by insert_all insert_by launch_keys active_keys lookup insert text_eq
two_calls-launched = refl

handle_round-releases_example :
    let w = steps two_calls (new_work_queue 1) in
    (w' : Wq) × (handle_round texts 4 3 failing (pos 60) at_40 w ≡ ok w')
    × All (IsReleased texts 3 failing at_40 w') (launched 4 (pos 60) w)
    × ((j : Text)
        → All (λ q. text_eq q.key j ≡ false) (launched 4 (pos 60) w)
        → (lookup j w'.wip ≡ lookup j w.wip) × (lookup j w'.queue ≡ lookup j w.queue))
handle_round-releases_example = handle_round-releases texts 1 two_calls 3 failing at_40 4 (pos 60)

failing_ending : ending texts 3 1 (some (plain (codes "down"))) ≡ requeues
unfolding ending get_requeue_delay get_non_retriable_details
failing_ending = refl

-- The first request dispatches, the second waits, and the third comes to the waiting room.
abbrev at_work : State
at_work = record { do_work = true; do_wait = false; pc = set_pc (λ _. Pc.arrived) 1 Pc.dispatching }

abbrev second_turned : State
second_turned = record { do_work = true; do_wait = false; pc = set_pc at_work.pc 2 Pc.turned_away }

abbrev second_waits : State
second_waits = record { do_work = true; do_wait = true; pc = set_pc second_turned.pc 2 Pc.waiting }

second_waits-Reach : Reach second_waits
unfolding idle
second_waits-Reach =
    Reach.next
      (Reach.next (Reach.next Reach.here (Step.try_work idle 1 refl refl))
        (Step.work_taken at_work 2 refl refl))
      (Step.try_wait second_turned 2 refl refl)

Reach-exclusive_example :
    ((i j : ℕ)
      → holds_work (second_waits.pc i) ≡ true
      → holds_work (second_waits.pc j) ≡ true
      → i ≡ j)
    × ((i j : ℕ)
        → holds_wait (second_waits.pc i) ≡ true
        → holds_wait (second_waits.pc j) ≡ true
        → i ≡ j)
Reach-exclusive_example = Reach-exclusive {s = second_waits} second_waits-Reach

wait_taken-served_example :
    (j : ℕ) × ((second_waits.pc j ≡ Pc.waiting) ⊎ (second_waits.pc j ≡ Pc.vacating))
wait_taken-served_example = wait_taken-served {s = second_waits} second_waits-Reach refl

Reach-progress_example : Proceeds second_waits 2
Reach-progress_example = Reach-progress {s = second_waits} 2 second_waits-Reach (λ h. h)
