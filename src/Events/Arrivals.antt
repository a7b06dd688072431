-- ===== src/Events/Arrivals.antt =====
-- What an event leaves in the queue.
use terraform_cloudrun_glue.Base.{
  ◌≡◌, ◌≢◌, refl, ap, ◌∙◌, inl, inr, false, Option, none, some, [], Bool-cases, ℤ, pos, Text,
  text_eq, text_eq_iff, lookup, lookup-insert_self, lookup-insert_other,
}
use terraform_cloudrun_glue.Workqueue.{Options}
use terraform_cloudrun_glue.Inmem.{Wq, QueueItem, queue_key, dedupe}
use terraform_cloudrun_glue.Events.{text, CloudEvent, ProcessRequest, handle_event, receive_inmem}

-- A request for the key alone.
abbrev pub request : Text → ProcessRequest
request k = record { key = k; priority = pos 0; delay_seconds = pos 0 }

queue_key-has :
    (k : Text) (opts : Options) (now : ℤ) (w : Wq)
    → (qi : QueueItem) × (lookup k (queue_key k opts now w).queue ≡ some qi)
unfolding queue_key
queue_key-has k opts now w = by_old (lookup k w.queue) refl
  where
    by_old :
        (o : Option QueueItem)
        → lookup k w.queue ≡ o
        → (qi : QueueItem) × (lookup k (queue_key k opts now w).queue ≡ some qi)
    by_old none e = (
      record { options = opts; attempts = 0; queued = now },
      rw (e, queue_key) (lookup-insert_self k _ w.queue),
    )
    by_old (some qi) e = (dedupe qi opts, rw (e, queue_key) (lookup-insert_self k _ w.queue))

others :
    (j k : Text) (opts : Options) (now : ℤ) (w : Wq)
    → k ≢ j
    → lookup j (queue_key k opts now w).queue ≡ lookup j w.queue
unfolding queue_key
others j k opts now w n = by_old (lookup k w.queue) refl
  where
    apart : text_eq k j ≡ false
    apart = elim (Bool-cases (text_eq k j)) [
      | inl e ↦ absurd (n ((text_eq_iff k j).0 e))
      | inr e ↦ e
    ]

    by_old :
        (o : Option QueueItem)
        → lookup k w.queue ≡ o
        → lookup j (queue_key k opts now w).queue ≡ lookup j w.queue
    by_old none e = rw (e, queue_key) (lookup-insert_other j k _ w.queue apart)
    by_old (some qi) e = rw (e, queue_key) (lookup-insert_other j k _ w.queue apart)

handled :
    (x : Text) (e : CloudEvent) (now : ℤ) (w : Wq) (k : Text)
    → lookup x e.extensions ≡ some (text k)
    → k ≢ []
    → handle_event (receive_inmem now) x e w ≡ (none, (receive_inmem now (request k) w).1)
unfolding handle_event receive_inmem
handled x e now w k h n =
    let filled : text_eq k [] ≡ false = elim (Bool-cases (text_eq k [])) [
      | inl t ↦ absurd (n ((text_eq_iff k []).0 t))
      | inr t ↦ t
    ] in
    rw (h, handle_event) (rw filled refl)

-- An event whose extension holds a key that is not empty is acknowledged and leaves the key in the
-- queue in memory, and no other key changes.
pub handle_event-queues :
    (x : Text) (e : CloudEvent) (now : ℤ) (w : Wq) (k j : Text)
    → lookup x e.extensions ≡ some (text k)
    → k ≢ []
    → k ≢ j
    → ((handle_event (receive_inmem now) x e w).0 ≡ none)
      × ((qi : QueueItem) × (lookup k (handle_event (receive_inmem now) x e w).1.queue ≡ some qi))
      × (lookup j (handle_event (receive_inmem now) x e w).1.queue ≡ lookup j w.queue)
unfolding receive_inmem
handle_event-queues x e now w k j h n d =
    let same = handled x e now w k h n in
    let (qi, q) = queue_key-has k _ now w in
    (
      ap (λ r. r.0) same,
      (qi, ap (λ r. lookup k r.1.queue) same ∙ q),
      ap (λ r. lookup j r.1.queue) same ∙ others j k _ now w d,
    )
