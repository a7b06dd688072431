-- ===== src/Inmem/Unique.antt =====
-- That inmem's backlog, an association list here, never holds a key twice.
use terraform_cloudrun_glue.Base.{
  ℕ, List, [], ◌∷◌, lookup, is_some, inl, inr, Bool-cases, Option-cases, ℤ, Text, IsMap,
  insert-IsMap, delete-IsMap,
}
use terraform_cloudrun_glue.Workqueue.{Options}
use terraform_cloudrun_glue.Inmem.{
  Wq, QueuedKey, new_work_queue, queue_key, start, requeue_with_options,
}
use terraform_cloudrun_glue.Inmem.Steps.{
  Op, queues, starts, requeues, deadletters, completes, step, after_start, deadletter-queue,
  complete-queue,
}

queue_key-IsMap :
    (key : Text) (opts : Options) (now : ℤ) (w : Wq)
    → IsMap w.queue
    → IsMap (queue_key key opts now w).queue
unfolding queue_key
queue_key-IsMap key opts now w h = elim (Option-cases (lookup key w.queue)) [
  | inl missing ↦ rw (missing, queue_key) (insert-IsMap key _ w.queue h)
  | inr (qi, found) ↦ rw (found, queue_key) (insert-IsMap key _ w.queue h)
]

start-IsMap : (q : QueuedKey) (w : Wq) → IsMap w.queue → IsMap (after_start w (start q w)).queue
unfolding start
start-IsMap q w h = elim (Bool-cases (is_some (lookup q.key w.wip))) [
  | inl busy ↦ rw busy h
  | inr free ↦ elim (Bool-cases (is_some (lookup q.key w.queue))) [
    | inl there ↦ rw (free, there) (delete-IsMap q.key w.queue h)
    | inr gone ↦ rw (free, gone) h
  ]
]

step-IsMap : (op : Op) (w : Wq) → IsMap w.queue → IsMap (step op w).queue
unfolding step requeue_with_options
step-IsMap (queues key opts now) w h = queue_key-IsMap key opts now w h
step-IsMap (starts q) w h = start-IsMap q w h
step-IsMap (requeues o opts now) w h = insert-IsMap o.key _ w.queue h
step-IsMap (deadletters o) w h = rw (deadletter-queue o w) h
step-IsMap (completes o) w h = rw (complete-queue o w) h

-- Calls one after another.
unfoldable pub steps : List Op → Wq → Wq
steps [] w = w
steps (op ∷ ops) w = steps ops (step op w)

steps-IsMap_from : (ops : List Op) (w : Wq) → IsMap w.queue → IsMap (steps ops w).queue
unfolding steps
steps-IsMap_from [] w h = h
steps-IsMap_from (op ∷ ops) w h = steps-IsMap_from ops (step op w) (step-IsMap op w h)

pub steps-IsMap : (limit : ℕ) (ops : List Op) → IsMap (steps ops (new_work_queue limit)).queue
unfolding new_work_queue
steps-IsMap limit ops = steps-IsMap_from ops (new_work_queue limit) tt
