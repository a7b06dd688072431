-- ===== src/Dispatcher/Rounds.antt =====
-- A round of pkg/workqueue/dispatcher/dispatcher.go on the in-memory queue, where each goroutine runs
-- from its start to its end before the next.
use terraform_cloudrun_glue.Base.{
  ℕ, zero, suc, ◌+◌, ◌-◌, ◌≡◌, refl, sym, ap, subst, ◌∙◌, true, false, Option, none, some, List, [],
  ◌∷◌, map, inl, inr, Bool-cases, if◌then◌else◌, is_some, leb, ℤ, pos, Text, text_eq, text_eq_iff,
  Dict, lookup, delete, length, lookup-delete_other, lookup-insert_other, All, arith,
}
use terraform_cloudrun_glue.Workqueue.{Outcome, ok, err, panic}
use terraform_cloudrun_glue.Workqueue.Errors.{StatusLib}
use terraform_cloudrun_glue.Inmem.{
  Wq, QueueItem, InProgressKey, QueuedKey, started, complete, deadletter, requeue,
  requeue_with_options, enumerate,
}
use terraform_cloudrun_glue.Inmem.Steps.{start-started}
use terraform_cloudrun_glue.Dispatcher.{
  Observed, active_keys, is_active, Ending, completes, requeues_after, deadletters, requeues,
  Callback, ending, end_key, run_key,
}
use terraform_cloudrun_glue.Dispatcher.Keys.{IsLeft, run_key_lem}

-- The launch loop over the keys themselves.
unfoldable pub launch_keys : Dict (Unit {0}) → ℕ → List QueuedKey → List QueuedKey
launch_keys active slots [] = []
launch_keys active zero (q ∷ next) = []
launch_keys active (suc slots) (q ∷ next) =
    let skipped = launch_keys active (suc slots) next in
    let launched = q ∷ launch_keys active slots next in
    if is_active active q.key then skipped else launched

-- No key of the in-memory queue is orphaned.
abbrev pub observed : InProgressKey → Observed
observed o = record { name = o.key; orphaned = false }

module _ (lib : StatusLib) where
  -- `clock` is the time when the callback for a key has returned. After an error or a panic of one
  -- key the state of the queue is not known, and the run ends with it.
  unfoldable pub run_keys : ℕ → Callback lib → (clock : Text → ℤ) → List QueuedKey → Wq → Outcome Wq
  unfolding run_key
  run_keys max_retry f clock [] w = ok w
  run_keys max_retry f clock (q ∷ qs) w = elim (run_key lib max_retry f (clock q.key) q w) [
    | ok w1 ↦ run_keys max_retry f clock qs w1
    | err ↦ err
    | panic ↦ panic
  ]

  -- HandleAsync and the future that it returns.
  unfoldable pub handle_round :
      (concurrency max_retry : ℕ) → Callback lib → (now : ℤ) → (clock : Text → ℤ) → Wq → Outcome Wq
  unfolding enumerate active_keys launch_keys run_keys
  handle_round concurrency max_retry f now clock w =
      let (wip, next) = enumerate now w in
      let active = active_keys (map observed wip) [] in
      let n = length active in
      if leb concurrency n
      then ok w
      else run_keys max_retry f clock (launch_keys active (concurrency - n) next) w

  end_key-others :
      (e : Ending) (o : InProgressKey) (ctx : ℕ) (now : ℤ) (w : Wq) (j : Text)
      → o.owner ≡ some ctx
      → text_eq o.key j ≡ false
      → (w' : Wq) × (end_key lib e o now w ≡ ok w')
        × (lookup j w'.wip ≡ lookup j w.wip)
        × (lookup j w'.queue ≡ lookup j w.queue)
  unfolding end_key complete deadletter requeue requeue_with_options
  end_key-others completes o ctx now w j owned h = (
    record w { cancelled = ctx ∷ w.cancelled; wip = delete o.key w.wip },
    rw owned refl,
    lookup-delete_other j o.key w.wip h,
    refl,
  )
  end_key-others deadletters o ctx now w j owned h =
      (deadletter o w, refl, lookup-delete_other j o.key w.wip h, ground arith)
  end_key-others requeues o ctx now w j owned h = (
    requeue o now w,
    refl,
    lookup-delete_other j o.key w.wip h,
    lookup-insert_other j o.key _ w.queue h,
  )
  end_key-others (requeues_after delay) o ctx now w j owned h =
      (_, refl, lookup-delete_other j o.key w.wip h, lookup-insert_other j o.key _ w.queue h)

  -- The key is queued and not in progress.
  abbrev pub IsStartable : Wq → QueuedKey → Type 0
  IsStartable w q = (lookup q.key w.wip ≡ none) × (is_some (lookup q.key w.queue) ≡ true)

  run_key-others :
      (max_retry : ℕ) (f : Callback lib) (now : ℤ) (q : QueuedKey) (w w' : Wq) (j : Text)
      → IsStartable w q
      → text_eq q.key j ≡ false
      → run_key lib max_retry f now q w ≡ ok w'
      → (lookup j w'.wip ≡ lookup j w.wip) × (lookup j w'.queue ≡ lookup j w.queue)
  unfolding run_key
  run_key-others max_retry f now q w w' j s h done =
      let (o, w1) = started q w in
      let answer = f q.key (record { priority = q.priority; not_before = pos 0; delay = pos 0 }) in
      let e = ending lib max_retry (q.attempts + 1) answer in
      let (v, made, wip, queue) = end_key-others e o w.next_ctx now w1 j refl h in
      let run : run_key lib max_retry f now q w ≡ ok v =
        rw (start-started q w s.0 s.1, run_key) made in
      let same : v ≡ w' = cc in
      (
        ap (λ u. lookup j u.wip) (sym same) ∙ wip ∙ lookup-insert_other j q.key tt w.wip h,
        ap (λ u. lookup j u.queue) (sym same) ∙ queue ∙ lookup-delete_other j q.key w.queue h,
      )

pub text_eq_sym : (s t : Text) → text_eq s t ≡ false → text_eq t s ≡ false
text_eq_sym s t h = elim (Bool-cases (text_eq t s)) [
  | inr e ↦ e
  | inl e ↦
      let f : text_eq s t ≡ true = (text_eq_iff s t).1 (sym ((text_eq_iff t s).0 e)) in absurd (cc)
]

-- The keys are different from each other.
abbrev pub IsApart : List QueuedKey → Type 0
IsApart [] = Unit
IsApart (q ∷ qs) = All (λ p. text_eq q.key p.key ≡ false) qs × IsApart qs

module _ (lib : StatusLib) (max_retry : ℕ) (f : Callback lib) (clock : Text → ℤ) where
  -- What may be left of the key after its callback's answer.
  abbrev pub LeftOver : QueuedKey → Option QueueItem → Type 0
  LeftOver q =
      IsLeft lib max_retry (q.attempts + 1) q.priority (clock q.key)
        (f q.key (record { priority = q.priority; not_before = pos 0; delay = pos 0 }))

  -- The key is not in progress, and the backlog holds of it what is left after its callback's answer.
  abbrev pub IsReleased : Wq → QueuedKey → Type 0
  IsReleased w q = (lookup q.key w.wip ≡ none) × LeftOver q (lookup q.key w.queue)

  abbrev pub Same : Text → Wq → Wq → Type 0
  Same j w w' = (lookup j w'.wip ≡ lookup j w.wip) × (lookup j w'.queue ≡ lookup j w.queue)

  run_key-IsStartable :
      (q : QueuedKey) (qs : List QueuedKey) (w w1 : Wq)
      → IsStartable lib w q
      → run_key lib max_retry f (clock q.key) q w ≡ ok w1
      → All (λ p. text_eq q.key p.key ≡ false) qs
      → All (IsStartable lib w) qs
      → All (IsStartable lib w1) qs
  run_key-IsStartable q [] w w1 s e d a = tt
  run_key-IsStartable q (p ∷ qs) w w1 s e d a =
      let (wip, queue) = run_key-others lib max_retry f (clock q.key) q w w1 p.key s d.0 e in
      ((wip ∙ a.0.0, ap is_some queue ∙ a.0.1), run_key-IsStartable q qs w w1 s e d.1 a.1)

  apart_sym :
      (q : QueuedKey) (qs : List QueuedKey)
      → All (λ p. text_eq q.key p.key ≡ false) qs
      → All (λ p. text_eq p.key q.key ≡ false) qs
  apart_sym q [] d = tt
  apart_sym q (p ∷ qs) d = (text_eq_sym q.key p.key d.0, apart_sym q qs d.1)

  -- Different keys that are queued and not in progress: the run ends without an error, every key is
  -- released, and another key is as it was.
  pub run_keys-IsReleased :
      (qs : List QueuedKey) (w : Wq)
      → All (IsStartable lib w) qs
      → IsApart qs
      → (w' : Wq) × (run_keys lib max_retry f clock qs w ≡ ok w')
        × All (IsReleased w') qs
        × ((j : Text) → All (λ q. text_eq q.key j ≡ false) qs → Same j w w')
  unfolding run_keys
  run_keys-IsReleased [] w a d = (w, refl, tt, λ j h. (refl, refl))
  run_keys-IsReleased (q ∷ qs) w a d =
      let (w1, e, wip, queue) = run_key_lem lib max_retry f (clock q.key) q w a.0.0 a.0.1 in
      let (w', made, released, frame) =
        run_keys-IsReleased qs w1 (run_key-IsStartable q qs w w1 a.0 e d.0 a.1) d.1 in
      let (wip', queue') = frame q.key (apart_sym q qs d.0) in
      (
        w',
        rw (e, run_keys) made,
        ((wip' ∙ wip, subst (LeftOver q) (sym queue') queue), released),
        λ j h.
            let (u, v) = run_key-others lib max_retry f (clock q.key) q w w1 j a.0 h.0 e in
            let (u', v') = frame j h.1 in (u' ∙ u, v' ∙ v),
      )
