-- ===== src/Dispatcher/Launched.antt =====
-- The keys that a round of pkg/workqueue/dispatcher/dispatcher.go launches on the in-memory queue,
-- and the round as a whole.
use terraform_cloudrun_glue.Base.{
  ℕ, zero, suc, ◌-◌, ◌≡◌, refl, ap, ◌∙◌, true, false, ◌||◌, none, some, Option, ◌⊎◌, List, [], ◌∷◌,
  map, inl, inr, Bool-cases, is_some, leb, ℤ, Text, text_eq, text_eq_refl, Dict, lookup, insert,
  lookup-insert, length, keep, take, sort_by, All, All-map, All-take, keep-All, All-sort_by, Differ,
  IsMap, Pairwise-take, Pairwise-keep, Pairwise-sort_by, top_loop_lem, arith, if◌then◌else◌,
}
use terraform_cloudrun_glue.Workqueue.{ok}
use terraform_cloudrun_glue.Workqueue.Errors.{StatusLib}
use terraform_cloudrun_glue.Inmem.{
  Wq, QueueItem, QueuedKey, enumerate, ranks_before, is_ready, to_queued_key, observe,
  new_work_queue,
}
use terraform_cloudrun_glue.Inmem.Steps.{Op}
use terraform_cloudrun_glue.Inmem.Unique.{steps, steps-IsMap}
use terraform_cloudrun_glue.Inmem.Order.{ranks_before-IsWeakOrder}
use terraform_cloudrun_glue.Dispatcher.{active_keys, is_active, Callback}
use terraform_cloudrun_glue.Dispatcher.Rounds.{
  launch_keys, observed, run_keys, handle_round, IsStartable, IsApart, IsReleased, Same,
  text_eq_sym, run_keys-IsReleased,
}

-- What the round launches.
unfoldable pub launched : (concurrency : ℕ) → (now : ℤ) → Wq → List QueuedKey
unfolding enumerate active_keys launch_keys
launched concurrency now w =
    let (wip, next) = enumerate now w in
    let active = active_keys (map observed wip) [] in
    launch_keys active (concurrency - length active) next

entries-queued : (m : Dict QueueItem) → All (λ e. is_some (lookup e.0 m) ≡ true) m
unfolding lookup
entries-queued [] = tt
entries-queued ((k, v) ∷ m) = (
  rw (text_eq_refl k) refl,
  All-map (λ e. is_some (lookup e.0 m) ≡ true) _ m (λ e h. later e.0 h) (entries-queued m),
)
  where
    later :
        (j : Text)
        → is_some (lookup j m) ≡ true
        → is_some (if text_eq k j then some v else lookup j m) ≡ true
    later j h = elim (Bool-cases (text_eq k j)) [ inl e ↦ rw e refl | inr e ↦ rw e h ]

is_active-wip :
    (wip acc : Dict (Unit {0})) (k : Text)
    → is_active (active_keys (map observed (map observe wip)) acc) k
      ≡ (is_some (lookup k wip) || is_some (lookup k acc))
unfolding active_keys lookup
is_active-wip [] acc k = refl
is_active-wip ((j, v) ∷ wip) acc k =
    is_active-wip wip (insert j tt acc) k
    ∙ rw (lookup-insert k j tt acc) (by_key (Bool-cases (text_eq j k)))
  where
    by_key :
        (text_eq j k ≡ true) ⊎ (text_eq j k ≡ false)
        → (is_some (lookup k wip) || is_some (if text_eq j k then some tt else lookup k acc))
          ≡ (is_some (if text_eq j k then some v else lookup k wip) || is_some (lookup k acc))
    by_key (inl h) = rw h (ground arith)
    by_key (inr h) = rw h refl

launch_keys-All :
    (P : QueuedKey → Type 0) (active : Dict (Unit {0})) (slots : ℕ) (next : List QueuedKey)
    → All P next
    → All (λ q. P q × (is_active active q.key ≡ false)) (launch_keys active slots next)
unfolding launch_keys
launch_keys-All P active slots [] h = tt
launch_keys-All P active zero (q ∷ next) h = tt
launch_keys-All P active (suc slots) (q ∷ next) h = elim (Bool-cases (is_active active q.key)) [
  | inl e ↦ rw e (launch_keys-All P active (suc slots) next h.1)
  | inr e ↦ rw e ((h.0, e), launch_keys-All P active slots next h.1)
]

launch_keys-IsApart :
    (active : Dict (Unit {0})) (slots : ℕ) (next : List QueuedKey)
    → IsApart next
    → IsApart (launch_keys active slots next)
unfolding launch_keys
launch_keys-IsApart active slots [] h = tt
launch_keys-IsApart active zero (q ∷ next) h = tt
launch_keys-IsApart active (suc slots) (q ∷ next) h = elim (Bool-cases (is_active active q.key)) [
  | inl e ↦ rw e (launch_keys-IsApart active (suc slots) next h.1)
  | inr e ↦ rw e (
    All-map _ (λ p. text_eq q.key p.key ≡ false) _ (λ p u. u.0)
        (launch_keys-All (λ p. text_eq q.key p.key ≡ false) active slots next h.0),
    launch_keys-IsApart active slots next h.1,
  )
]

All-queued_keys :
    (P : Text → Type 0) (l : Dict QueueItem)
    → All (λ e. P e.0) l
    → All (λ q. P q.key) (map to_queued_key l)
All-queued_keys P [] h = tt
All-queued_keys P (e ∷ l) h = (h.0, All-queued_keys P l h.1)

IsMap-IsApart : (l : Dict QueueItem) → IsMap l → IsApart (map to_queued_key l)
IsMap-IsApart [] h = tt
IsMap-IsApart (e ∷ l) h = (All-queued_keys (λ k. text_eq e.0 k ≡ false) l h.0, IsMap-IsApart l h.1)

not_some : {A : Type 0} → (o : Option A) → is_some o ≡ false → o ≡ none
not_some none h = refl
not_some (some x) h = ground arith

module _ (lib : StatusLib) where
  module _ (now : ℤ) (w : Wq) where
    next_keys :
        (enumerate now w).1
        ≡ map to_queued_key (take w.limit (sort_by ranks_before (keep (is_ready now) w.queue)))
    unfolding enumerate
    next_keys =
        ap (map to_queued_key) (top_loop_lem ranks_before w.limit ranks_before-IsWeakOrder _)

    next_queued : All (λ q. is_some (lookup q.key w.queue) ≡ true) (enumerate now w).1
    next_queued =
        let P : Text × QueueItem → Type 0 = λ e. is_some (lookup e.0 w.queue) ≡ true in
        rw next_keys (
          All-queued_keys (λ k. is_some (lookup k w.queue) ≡ true) _
            (All-take P w.limit _ (
              All-sort_by ranks_before P _
                (keep-All P (is_ready now) w.queue (entries-queued w.queue)))))

    next-IsApart : IsMap w.queue → IsApart (enumerate now w).1
    next-IsApart m = rw next_keys (
        IsMap-IsApart _ (
          Pairwise-take Differ w.limit _ (
            Pairwise-sort_by ranks_before Differ (λ a b h. text_eq_sym a.0 b.0 h) _
              (Pairwise-keep Differ (is_ready now) w.queue m))))

    launched-IsStartable : (concurrency : ℕ) → All (IsStartable lib w) (launched concurrency now w)
    unfolding launched enumerate lookup
    launched-IsStartable concurrency =
        All-map _ (IsStartable lib w) _
          (λ q h. (not_some (lookup q.key w.wip) (free q.key h.1), h.0))
          (launch_keys-All (λ q. is_some (lookup q.key w.queue) ≡ true) _ _ _ next_queued)
      where
        free :
            (k : Text)
            → is_active (active_keys (map observed (map observe w.wip)) []) k ≡ false
            → is_some (lookup k w.wip) ≡ false
        free k h = ground (arith, is_active-wip w.wip [] k)

    launched-IsApart : (concurrency : ℕ) → IsMap w.queue → IsApart (launched concurrency now w)
    unfolding launched enumerate
    launched-IsApart concurrency m = launch_keys-IsApart _ _ _ (next-IsApart m)

  -- The round runs the keys that it launches, none when the keys in progress take all slots.
  handle_round-run_keys :
      (max_retry : ℕ) (f : Callback lib) (clock : Text → ℤ) (concurrency : ℕ) (now : ℤ) (w : Wq)
      → handle_round lib concurrency max_retry f now clock w
        ≡ run_keys lib max_retry f clock (launched concurrency now w) w
  unfolding handle_round launched launch_keys run_keys enumerate
  handle_round-run_keys max_retry f clock concurrency now w =
      let (wip, next) = enumerate now w in
      let active = active_keys (map observed wip) [] in
      elim (Bool-cases (leb concurrency (length active))) [
        | inl full ↦
            let none_left : concurrency - length active ≡ 0 = ground arith in
            rw (full, none_left, launch_keys-zero active next) refl
        | inr room ↦ rw room refl
      ]
    where
      launch_keys-zero :
          (active : Dict (Unit {0})) (next : List QueuedKey) → launch_keys active 0 next ≡ []
      launch_keys-zero active [] = refl
      launch_keys-zero active (q ∷ next) = refl

  round_from :
      (max_retry : ℕ) (f : Callback lib) (clock : Text → ℤ) (concurrency : ℕ) (now : ℤ) (w : Wq)
      → IsMap w.queue
      → (w' : Wq) × (handle_round lib concurrency max_retry f now clock w ≡ ok w')
        × All (IsReleased lib max_retry f clock w') (launched concurrency now w)
        × ((j : Text)
            → All (λ q. text_eq q.key j ≡ false) (launched concurrency now w)
            → Same lib max_retry f clock j w w')
  round_from max_retry f clock concurrency now w m =
      let (w', made, released, frame) =
        run_keys-IsReleased lib max_retry f clock (launched concurrency now w) w
          (launched-IsStartable now w concurrency) (launched-IsApart now w concurrency m) in
      (w', handle_round-run_keys max_retry f clock concurrency now w ∙ made, released, frame)

  -- After any calls on a new in-memory queue, a round of the dispatcher, whatever its callbacks
  -- answer, ends without an error. Every key that it launches is released: it is not in progress, and
  -- the backlog holds nothing of it after a success, after an error that is marked as not to be
  -- retried, and when the retries are limited and used up; it holds the key with the delay that an
  -- error asks for, if it is above 0, and otherwise the key, after a backoff if its priority is above
  -- 0; and then with its priority and one more attempt. A key that it does not launch is as it was.
  pub handle_round-releases :
      (limit : ℕ) (ops : List Op) (max_retry : ℕ) (f : Callback lib) (clock : Text → ℤ)
      (concurrency : ℕ) (now : ℤ)
      → let w = steps ops (new_work_queue limit) in
        (w' : Wq) × (handle_round lib concurrency max_retry f now clock w ≡ ok w')
        × All (IsReleased lib max_retry f clock w') (launched concurrency now w)
        × ((j : Text)
            → All (λ q. text_eq q.key j ≡ false) (launched concurrency now w)
            → (lookup j w'.wip ≡ lookup j w.wip) × (lookup j w'.queue ≡ lookup j w.queue))
  handle_round-releases limit ops max_retry f clock concurrency now =
      round_from max_retry f clock concurrency now _ (steps-IsMap limit ops)
