-- ===== src/Inmem/Steps.antt =====
-- What each operation of inmem does to the backlog and to the keys in progress.
use terraform_cloudrun_glue.Base.{
  ◌+◌, ◌≡◌, refl, ◌∙◌, ◌≢◌, ◌⊎◌, inl, inr, true, false, if◌then◌else◌, ℤ, Text, Dict, lookup,
  insert, arith, is_some, none, some, ◌≤ℤ◌, text_eq, lookup-insert, lookup-delete, subst,
  Option-cases, Bool-cases, text_eq_iff,
}
use terraform_cloudrun_glue.Workqueue.{Options, Outcome, ok, err, panic}
use terraform_cloudrun_glue.Inmem.{
  Wq, QueueItem, QueuedKey, InProgressKey, queue_key, start, complete, deadletter,
  requeue_with_options, requeued_item, requeue_options, started, dedupe, merge,
}

-- The calls that reach a queue.
pub data Op : Type 0 where
  queues : Text → Options → ℤ → Op
  starts : QueuedKey → Op
  requeues : InProgressKey → Options → ℤ → Op
  deadletters : InProgressKey → Op
  completes : InProgressKey → Op

abbrev pub after_start : Wq → Outcome (InProgressKey × Wq) → Wq
after_start w (ok (o, w')) = w'
after_start w err = w
after_start w panic = w

abbrev after_complete : Wq → Outcome Wq → Wq
after_complete w (ok w') = w'
after_complete w err = w
after_complete w panic = w

-- A call that fails leaves the queue as it was.
unfoldable pub step : Op → Wq → Wq
step (queues key opts now) w = queue_key key opts now w
step (starts q) w = after_start w (start q w)
step (requeues o opts now) w = requeue_with_options o opts now w
step (deadletters o) w = deadletter o w
step (completes o) w = after_complete w (complete o w)

abbrev IsStartOf : Text → Op → Type 0
IsStartOf k (starts q) = q.key ≡ k
IsStartOf k _ = ⊥

-- The entry of a key that stays queued.
pub record Raised (a b : QueueItem) : Type 0 where
  pub priority : a.priority ≤ℤ b.priority
  pub not_before : a.not_before ≤ℤ b.not_before
  pub attempts : b.attempts ≡ a.attempts
  pub queued : b.queued ≡ a.queued

dedupe-Raised : (a : QueueItem) (opts : Options) → Raised a (dedupe a opts)
unfolding dedupe
dedupe-Raised a opts = ground arith

merge-Raised : (a : QueueItem) (opts : Options) → Raised a (merge a opts)
unfolding merge
merge-Raised a opts = ground arith

Raised-refl : (a : QueueItem) → Raised a a
Raised-refl a = ground arith

abbrev Stays : Text → QueueItem → Wq → Type 0
Stays k a w = (b : QueueItem) × (lookup k w.queue ≡ some b) × Raised a b

insert-Stays :
    (k j : Text) (a b : QueueItem) (m : Dict QueueItem)
    → lookup k m ≡ some a
    → (lookup j m ≡ some a → Raised a b)
    → (c : QueueItem) × (lookup k (insert j b m) ≡ some c) × Raised a c
insert-Stays k j a b m e r = elim (Bool-cases (text_eq j k)) [
  | inl same ↦ (b, rw (lookup-insert, same) refl, r (rw ((text_eq_iff j k).0 same) e))
  | inr other ↦ (a, rw (lookup-insert, other) e, Raised-refl a)
]

queue_key-Stays :
    (k : Text) (a : QueueItem) (key : Text) (opts : Options) (now : ℤ) (w : Wq)
    → lookup k w.queue ≡ some a
    → Stays k a (queue_key key opts now w)
unfolding queue_key
queue_key-Stays k a key opts now w e = elim (Option-cases (lookup key w.queue)) [
  | inl missing ↦ rw (missing, queue_key) (insert-Stays k key a _ w.queue e (λ f. cc))
  | inr (qi, found) ↦
      rw (found, queue_key)
        (insert-Stays k key a _ w.queue e
          (λ f. subst (λ b. Raised b (dedupe qi opts)) (cc) (dedupe-Raised qi opts)))
]

requeue-Stays :
    (k : Text) (a : QueueItem) (o : InProgressKey) (opts : Options) (now : ℤ) (w : Wq)
    → lookup k w.queue ≡ some a
    → Stays k a (requeue_with_options o opts now w)
unfolding requeue_with_options
requeue-Stays k a o opts now w e = insert-Stays k o.key a _ w.queue e (λ f. same f)
  where
    same :
        lookup o.key w.queue ≡ some a → Raised a (requeued_item (lookup o.key w.queue) o opts now)
    same f = rw f (merge-Raised a (requeue_options o opts now))

pub deadletter-queue : (o : InProgressKey) (w : Wq) → (deadletter o w).queue ≡ w.queue
unfolding deadletter
deadletter-queue o w = ground arith

pub complete-queue :
    (o : InProgressKey) (w : Wq) → (after_complete w (complete o w)).queue ≡ w.queue
unfolding complete
complete-queue o w = ground arith

start-queue :
    (k : Text) (q : QueuedKey) (w : Wq)
    → q.key ≢ k
    → lookup k (after_start w (start q w)).queue ≡ lookup k w.queue
unfolding start
start-queue k q w other = ground (arith, lookup-delete k q.key w.queue, text_eq_iff q.key k)

-- A queued key stays queued through every call but a start of that very key, and neither its
-- priority nor its NotBefore ever falls; its attempts and its queueing time stay as they are.
pub step-Stays :
    (k : Text) (a : QueueItem) (op : Op) (w : Wq)
    → lookup k w.queue ≡ some a
    → ¬ IsStartOf k op
    → (b : QueueItem) × (lookup k (step op w).queue ≡ some b) × Raised a b
unfolding step
step-Stays k a (queues key opts now) w e h = queue_key-Stays k a key opts now w e
step-Stays k a (starts q) w e h = (a, start-queue k q w h ∙ e, Raised-refl a)
step-Stays k a (requeues o opts now) w e h = requeue-Stays k a o opts now w e
step-Stays k a (deadletters o) w e h = (a, rw (deadletter-queue o w) e, Raised-refl a)
step-Stays k a (completes o) w e h = (a, rw (complete-queue o w) e, Raised-refl a)

-- What a successful start leaves behind.
pub record Starts (q : QueuedKey) (w : Wq) (o : InProgressKey) (w' : Wq) : Type 0 where
  pub free : lookup q.key w.wip ≡ none
  pub was_queued : is_some (lookup q.key w.queue) ≡ true
  pub same_key : o.key ≡ q.key
  pub next_attempt : o.attempts ≡ q.attempts + 1
  pub same_priority : o.priority ≡ q.priority
  pub own_context : o.owner ≡ some w.next_ctx
  pub contexts : w'.next_ctx ≡ w.next_ctx + 1
  pub backlog :
      (k : Text) → lookup k w'.queue ≡ (if text_eq q.key k then none else lookup k w.queue)
  pub progress :
      (k : Text) → lookup k w'.wip ≡ (if text_eq q.key k then some tt else lookup k w.wip)

started-Starts :
    (q : QueuedKey) (w : Wq)
    → lookup q.key w.wip ≡ none
    → is_some (lookup q.key w.queue) ≡ true
    → Starts q w (started q w).0 (started q w).1
started-Starts q w free queued = record {
  free = free;
  was_queued = queued;
  same_key = refl;
  next_attempt = refl;
  same_priority = refl;
  own_context = refl;
  contexts = refl;
  backlog = λ k. lookup-delete k q.key w.queue;
  progress = λ k. lookup-insert k q.key tt w.wip;
}

-- A start fails, and changes nothing, exactly when the key is in progress or not queued. Otherwise
-- the key alone moves from the backlog to the keys in progress, under the next attempt and with an
-- owner context of its own.
pub start_cases :
    (q : QueuedKey) (w : Wq)
    → ((start q w ≡ err)
        × ((is_some (lookup q.key w.wip) ≡ true) ⊎ (is_some (lookup q.key w.queue) ≡ false)))
      ⊎ ((o : InProgressKey) × (w' : Wq) × (start q w ≡ ok (o, w')) × Starts q w o w')
unfolding start
start_cases q w = elim (Option-cases (lookup q.key w.wip)) [
  | inr (_, busy) ↦ inl (rw busy refl, inl (rw busy refl))
  | inl free ↦ elim (Bool-cases (is_some (lookup q.key w.queue))) [
    | inl queued ↦
        inr
          ((started q w).0, (started q w).1, rw (free, queued) refl, started-Starts q w free queued)
    | inr absent ↦ inl (rw (free, absent) refl, inr absent)
  ]
]

pub start-started :
    (q : QueuedKey) (w : Wq)
    → lookup q.key w.wip ≡ none
    → is_some (lookup q.key w.queue) ≡ true
    → start q w ≡ ok (started q w)
unfolding start
start-started q w free queued = rw (free, queued) refl
