-- ===== src/Dispatcher/Keys.antt =====
-- What becomes of a launched key on the in-memory queue, whatever the callback answers.
use terraform_cloudrun_glue.Base.{
  ℕ, ◌+◌, ◌<◌, ◌≤◌, ◌≡◌, ◌⊎◌, inl, inr, ◌&&◌, refl, sym, subst, ltb, leb, Bool-cases, Option-cases,
  ◌∙◌, true, false, Option, none, some, if◌then◌else◌, is_some, ℤ, pos, ◌+ℤ◌, ltb_ℤ, ◌∷◌, lookup,
  delete, lookup-delete_self, arith,
}
use terraform_cloudrun_glue.Workqueue.{Options, no_options, ok, backoff_delay}
use terraform_cloudrun_glue.Workqueue.Errors.{
  GoError, StatusLib, get_requeue_delay, get_non_retriable_details,
}
use terraform_cloudrun_glue.Inmem.{
  Wq, QueueItem, InProgressKey, QueuedKey, started, complete, deadletter, requeue,
  requeue_with_options, requeue_options,
}
use terraform_cloudrun_glue.Inmem.Retry.{requeue_missing}
use terraform_cloudrun_glue.Inmem.Steps.{start-started}
use terraform_cloudrun_glue.Dispatcher.{
  Ending, completes, requeues_after, deadletters, requeues, Callback, ending, end_key, run_key,
}

-- The options with which a key of this priority is queued again after so many attempts.
abbrev backed_off : ℤ → ℕ → ℤ → Options
backed_off priority attempts now = record {
  priority = priority;
  not_before = if ltb_ℤ (pos 0) priority then now +ℤ backoff_delay (pos attempts) else pos 0;
  delay = pos 0;
}

-- The entry that an ending leaves in the backlog, if no request for the key came in between.
abbrev pub remains : Ending → ℤ → ℕ → ℤ → Option QueueItem
remains completes priority attempts now = none
remains deadletters priority attempts now = none
remains requeues priority attempts now =
    some (record { options = backed_off priority attempts now; attempts = attempts; queued = now })
remains (requeues_after delay) priority attempts now = some (record {
  options = record (backed_off priority attempts now) {
    not_before =
        if ltb_ℤ (pos 0) delay then now +ℤ delay else (backed_off priority attempts now).not_before;
    delay = delay;
  };
  attempts = attempts;
  queued = now;
})

module _ (lib : StatusLib) where
  end_key_lem :
      (e : Ending) (o : InProgressKey) (ctx : ℕ) (now : ℤ) (w : Wq)
      → o.owner ≡ some ctx
      → lookup o.key w.queue ≡ none
      → (w' : Wq) × (end_key lib e o now w ≡ ok w')
        × (lookup o.key w'.wip ≡ none)
        × (lookup o.key w'.queue ≡ remains e o.priority o.attempts now)
  unfolding end_key complete deadletter requeue
  end_key_lem completes o ctx now w owned missing = (
    record w { cancelled = ctx ∷ w.cancelled; wip = delete o.key w.wip },
    rw owned refl,
    lookup-delete_self o.key w.wip,
    missing,
  )
  end_key_lem deadletters o ctx now w owned missing =
      (deadletter o w, refl, lookup-delete_self o.key w.wip, ground arith)
  end_key_lem requeues o ctx now w owned missing =
      let (queue, wip) = requeue_missing o.key o no_options now w refl missing in
      (requeue o now w, refl, wip, queue ∙ unfold requeue_options in ground arith)
  end_key_lem (requeues_after delay) o ctx now w owned missing =
      let opts : Options = record { priority = o.priority; not_before = pos 0; delay = delay } in
      let (queue, wip) = requeue_missing o.key o opts now w refl missing in
      (requeue_with_options o opts now w, refl, wip, queue ∙ unfold requeue_options in ground arith)

  -- The entry that the backlog is to hold of a key, by what its callback answered: nothing after a
  -- success; after an error that asks for a delay the key with this delay; nothing when the retries
  -- are limited and used up, or when the error is marked as not to be retried; otherwise the key
  -- after its backoff, where a key of priority 0 or less has none.
  pub data IsLeft (max_retry attempts : ℕ) (priority now : ℤ)
      : Option (GoError lib.Status) → Option QueueItem → Type 0 where
    succeeded : IsLeft max_retry attempts priority now none none
    delayed :
        (e : GoError lib.Status) (d : ℤ)
        → get_requeue_delay e ≡ some d
        → IsLeft max_retry attempts priority now (some e) (
            some (record {
              options = record {
                priority = priority;
                not_before =
                    if ltb_ℤ (pos 0) d
                    then now +ℤ d
                    else if ltb_ℤ (pos 0) priority
                    then now +ℤ backoff_delay (pos attempts)
                    else pos 0;
                delay = d;
              };
              attempts = attempts;
              queued = now;
            }))
    used_up :
        (e : GoError lib.Status)
        → get_requeue_delay e ≡ none
        → 0 < max_retry
        → max_retry ≤ attempts
        → IsLeft max_retry attempts priority now (some e) none
    not_retriable :
        (e : GoError lib.Status)
        → get_requeue_delay e ≡ none
        → (max_retry ≡ 0) ⊎ (attempts < max_retry)
        → is_some (get_non_retriable_details lib (some e)) ≡ true
        → IsLeft max_retry attempts priority now (some e) none
    retried :
        (e : GoError lib.Status)
        → get_requeue_delay e ≡ none
        → (max_retry ≡ 0) ⊎ (attempts < max_retry)
        → get_non_retriable_details lib (some e) ≡ none
        → IsLeft max_retry attempts priority now (some e) (
            some (record {
              options = record {
                priority = priority;
                not_before =
                    if ltb_ℤ (pos 0) priority then now +ℤ backoff_delay (pos attempts) else pos 0;
                delay = pos 0;
              };
              attempts = attempts;
              queued = now;
            }))

  pub ending-IsLeft :
      (max_retry attempts : ℕ) (priority now : ℤ) (answer : Option (GoError lib.Status))
      → IsLeft max_retry attempts priority now answer
          (remains (ending lib max_retry attempts answer) priority attempts now)
  unfolding ending
  ending-IsLeft max_retry attempts priority now none = succeeded
  ending-IsLeft max_retry attempts priority now (some e) =
      elim (Option-cases (get_requeue_delay e)) [
        | inr (d, asks) ↦ at (requeues_after d) (rw (asks, ending) refl) (delayed e d asks)
        | inl no_delay ↦ elim (Bool-cases (ltb 0 max_retry && leb max_retry attempts)) [
          | inl over ↦
              at deadletters (rw (no_delay, ending) (rw over refl))
                (used_up e no_delay (ground arith) (ground arith))
          | inr under ↦
              let left : (max_retry ≡ 0) ⊎ (attempts < max_retry) = below under in
              elim (Option-cases (get_non_retriable_details lib (some e))) [
                | inr (m, marked) ↦
                    at completes (rw (no_delay, ending) (rw under (rw marked refl)))
                      (not_retriable e no_delay left (rw marked refl))
                | inl unmarked ↦
                    at requeues (rw (no_delay, ending) (rw under (rw unmarked refl)))
                      (retried e no_delay left unmarked)
              ]
        ]
      ]
    where
      at :
          (x : Ending)
          → ending lib max_retry attempts (some e) ≡ x
          → IsLeft max_retry attempts priority now (some e) (remains x priority attempts now)
          → IsLeft max_retry attempts priority now
              (some e)
              (remains (ending lib max_retry attempts (some e)) priority attempts now)
      at x same h =
          subst
            (λ x. IsLeft max_retry attempts priority now (some e) (remains x priority attempts now))
            (sym same) h

      below :
          (ltb 0 max_retry && leb max_retry attempts) ≡ false
          → (max_retry ≡ 0) ⊎ (attempts < max_retry)
      below h = ground arith

  pub run_key-remains :
      (max_retry : ℕ) (f : Callback lib) (now : ℤ) (q : QueuedKey) (w : Wq)
      → lookup q.key w.wip ≡ none
      → is_some (lookup q.key w.queue) ≡ true
      → (w' : Wq) × (run_key lib max_retry f now q w ≡ ok w')
        × (lookup q.key w'.wip ≡ none)
        × (lookup q.key w'.queue
            ≡ remains
                (ending lib max_retry
                  (q.attempts + 1)
                  (f q.key (record { priority = q.priority; not_before = pos 0; delay = pos 0 })))
                q.priority
                (q.attempts + 1)
                now)
  unfolding run_key
  run_key-remains max_retry f now q w free queued =
      let answer = f q.key (record { priority = q.priority; not_before = pos 0; delay = pos 0 }) in
      let e = ending lib max_retry (q.attempts + 1) answer in
      let (o, w1) = started q w in
      let (w', done, wip, queue) =
        end_key_lem e o w.next_ctx now w1 refl (lookup-delete_self q.key w.queue) in
      (w', rw (start-started q w free queued, run_key) done, wip, queue)

  -- A key that can be started is started, the callback is called with it and its priority, and the
  -- key is released: it is no longer in progress. After a success the backlog holds nothing of it;
  -- after an error that asks for a delay it holds the key with this delay, if it is above 0; nothing
  -- when the retries are limited and used up, or when the error is marked as not to be retried; and
  -- otherwise the key, after a backoff if its priority is above 0. A key that the backlog holds has
  -- its priority and one more attempt.
  pub run_key_lem :
      (max_retry : ℕ) (f : Callback lib) (now : ℤ) (q : QueuedKey) (w : Wq)
      → lookup q.key w.wip ≡ none
      → is_some (lookup q.key w.queue) ≡ true
      → (w' : Wq) × (run_key lib max_retry f now q w ≡ ok w')
        × (lookup q.key w'.wip ≡ none)
        × IsLeft max_retry
            (q.attempts + 1)
            q.priority
            now
            (f q.key (record { priority = q.priority; not_before = pos 0; delay = pos 0 }))
            (lookup q.key w'.queue)
  run_key_lem max_retry f now q w free queued =
      let answer = f q.key (record { priority = q.priority; not_before = pos 0; delay = pos 0 }) in
      let (w', done, wip, queue) = run_key-remains max_retry f now q w free queued in
      (
        w',
        done,
        wip,
        subst (IsLeft max_retry (q.attempts + 1) q.priority now answer) (sym queue)
            (ending-IsLeft max_retry (q.attempts + 1) q.priority now answer),
      )

  -- A key with a retry limit is never queued again at the limit or beyond it, unless its callback
  -- asks for a delay.
  pub ending-requeues :
      (max_retry attempts : ℕ) (e : GoError lib.Status)
      → 0 < max_retry
      → ending lib max_retry attempts (some e) ≡ requeues
      → (attempts < max_retry)
        × (get_requeue_delay e ≡ none)
        × (get_non_retriable_details lib (some e) ≡ none)
  unfolding ending
  ending-requeues max_retry attempts e h r = ground arith
