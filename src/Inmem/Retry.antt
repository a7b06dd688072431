-- ===== src/Inmem/Retry.antt =====
-- Backoff, requeueing and deduplication: interface.go's constants with inmem's Queue and Requeue.
use terraform_cloudrun_glue.Base.{
  ℕ, ◌+◌, ◌*◌, ◌^◌, ◌<◌, min, ◌≡◌, sym, ◌∙◌, if◌then◌else◌, ℤ, pos, lookup, arith, none, some,
  ltb_ℤ, ◌<ℤ◌, ◌≤ℤ◌, refl, ◌+ℤ◌, Text, subst, ◌*ℤ◌, wrap64-id, lookup-insert_self,
  lookup-delete_self, insert, delete,
}
use terraform_cloudrun_glue.Workqueue.{
  Options, no_options, ok, backoff_delay, backoff_period, maximum_backoff_period,
}
use terraform_cloudrun_glue.Inmem.{
  Wq, QueueItem, QueuedKey, InProgressKey, queue_key, start, requeue, requeue_with_options, dedupe,
  merge, requeue_options, requeued_item,
}
use terraform_cloudrun_glue.Inmem.Owners.{start-Starts}

-- As long as the product fits an int64, the delay grows by one period with each attempt up to the cap.
pub backoff_delay-min :
    (n : ℕ)
    → n * backoff_period < 2 ^ 63
    → backoff_delay (pos n) ≡ pos (min (n * backoff_period) maximum_backoff_period)
unfolding backoff_delay ◌*ℤ◌
backoff_delay-min n h = ground (arith, wrap64-id (pos (n * backoff_period)))

-- A requeue of a key that is not in the backlog puts it there with the given options.
pub requeue_missing :
    (k : Text) (o : InProgressKey) (opts : Options) (now : ℤ) (w : Wq)
    → o.key ≡ k
    → lookup k w.queue ≡ none
    → (lookup k (requeue_with_options o opts now w).queue
        ≡ some
            (record { options = requeue_options o opts now; attempts = o.attempts; queued = now }))
      × (lookup k (requeue_with_options o opts now w).wip ≡ none)
unfolding requeue_with_options
requeue_missing k o opts now w same missing = (
  subst
      (λ j.
        lookup k (insert j (requeued_item (lookup j w.queue) o opts now) w.queue)
        ≡ some
            (record { options = requeue_options o opts now; attempts = o.attempts; queued = now }))
      (sym same) (rw (missing, requeued_item) (lookup-insert_self k _ w.queue)),
  subst (λ j. lookup k (delete j w.wip) ≡ none) (sym same) (lookup-delete_self k w.wip),
)

-- A requeue of a key that was queued again while it was in progress keeps the newer entry's attempts
-- and queueing time.
requeue_found :
    (k : Text) (o : InProgressKey) (now : ℤ) (w : Wq) (qi : QueueItem)
    → o.key ≡ k
    → lookup k w.queue ≡ some qi
    → (b : QueueItem) × (lookup k (requeue o now w).queue ≡ some b)
      × (b.attempts ≡ qi.attempts)
      × (b.queued ≡ qi.queued)
      × (qi.priority ≤ℤ b.priority)
      × (o.priority ≤ℤ b.priority)
unfolding requeue requeue_with_options requeue_options merge
requeue_found k o now w qi same found = (
  merge qi (requeue_options o no_options now),
  subst
      (λ j.
        lookup k (insert j (requeued_item (lookup j w.queue) o no_options now) w.queue)
        ≡ some (merge qi (requeue_options o no_options now)))
      (sym same) (rw (found, requeued_item) (lookup-insert_self k _ w.queue)),
  refl,
  refl,
  ground arith,
  ground arith,
)

-- A key that was started and is requeued by its owner later, whatever happened to the queue in
-- between, is no longer in progress. If it was not queued again it goes back to the backlog with the
-- attempt counted and with its priority, and waits for the backoff if its priority is above 0 (and
-- not at all otherwise). If it was queued again, the attempt is not counted: the entry keeps its
-- attempts and its queueing time, and has at least the priority of both.
pub requeue-start :
    (q : QueuedKey) (w : Wq) (o : InProgressKey) (w' later : Wq) (now : ℤ)
    → start q w ≡ ok (o, w')
    → (lookup q.key (requeue o now later).wip ≡ none)
      × (lookup q.key later.queue ≡ none
          → lookup q.key (requeue o now later).queue
            ≡ some (record {
              options = record {
                priority = q.priority;
                not_before =
                    if ltb_ℤ (pos 0) q.priority
                    then now +ℤ backoff_delay (pos (q.attempts + 1))
                    else pos 0;
                delay = pos 0;
              };
              attempts = q.attempts + 1;
              queued = now;
            }))
      × ((qi : QueueItem)
          → lookup q.key later.queue ≡ some qi
          → (b : QueueItem) × (lookup q.key (requeue o now later).queue ≡ some b)
            × (b.attempts ≡ qi.attempts)
            × (b.queued ≡ qi.queued)
            × (qi.priority ≤ℤ b.priority)
            × (q.priority ≤ℤ b.priority))
unfolding requeue requeue_options requeue_with_options
requeue-start q w o w' later now e =
    let s = start-Starts q w o w' e in
    (
      subst (λ j. lookup q.key (delete j later.wip) ≡ none) (sym s.same_key)
          (lookup-delete_self q.key later.wip),
      λ gone.
          let (queue, wip) = requeue_missing q.key o no_options now later s.same_key gone in
          queue ∙ ground (arith, s.same_priority, s.next_attempt),
      λ qi found.
          let (b, there, attempts, queued, kept, raised) =
            requeue_found q.key o now later qi s.same_key found in
          (b, there, attempts, queued, kept, subst (λ p. p ≤ℤ b.priority) s.same_priority raised),
    )

-- Queueing a key again with a higher priority drops the new NotBefore, however late it is.
pub queue_key_drops_not_before :
    (key : Text) (opts : Options) (now : ℤ) (w : Wq) (qi : QueueItem)
    → lookup key w.queue ≡ some qi
    → qi.priority <ℤ opts.priority
    → qi.not_before <ℤ opts.not_before
    → (b : QueueItem) × (lookup key (queue_key key opts now w).queue ≡ some b)
      × (b.priority ≡ opts.priority)
      × (b.not_before ≡ qi.not_before)
unfolding queue_key
queue_key_drops_not_before key opts now w qi e p n = (
  dedupe qi opts,
  rw (e, queue_key) (lookup-insert_self key (dedupe qi opts) w.queue),
  unfold dedupe in ground arith,
  unfold dedupe in ground arith,
)

-- Only the second of two equal requests brings a queued key to the merge of both: the higher
-- priority and the later NotBefore, which is what a requeue makes at once.
pub dedupe-dedupe : (qi : QueueItem) (opts : Options) → dedupe (dedupe qi opts) opts ≡ merge qi opts
unfolding dedupe merge
dedupe-dedupe qi opts = ground arith
