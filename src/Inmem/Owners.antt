-- ===== src/Inmem/Owners.antt =====
-- The keys in progress against the owners that are still working on them, over any interleaving of
-- calls. An owner is what a successful start returned; it ends by one complete, requeue or
-- deadletter. Start may be called on any handle, however stale. A second end by one owner, and
-- Requeue on a key that Enumerate returned as in progress, are no steps here: both take the mark off a
-- key that another owner may work on.
use terraform_cloudrun_glue.Base.{
  ℕ, ◌≡◌, refl, sym, ap, ◌∙◌, inl, inr, Bool, false, ◌||◌, List, [], ◌∷◌, ◌++◌, if◌then◌else◌, ℤ,
  Text, lookup, delete, arith, is_some, text_eq, lookup-delete, text_eq_iff, subst,
}
use terraform_cloudrun_glue.Workqueue.{Options, Outcome, ok}
use terraform_cloudrun_glue.Inmem.{
  Wq, QueuedKey, InProgressKey, new_work_queue, queue_key, start, complete, deadletter,
  requeue_with_options,
}
use terraform_cloudrun_glue.Inmem.Steps.{Starts, start_cases}

pub record System : Type 0 where
  pub wq : Wq
  pub live : List InProgressKey

-- A call that succeeds, of an owner that has not ended its key or of anybody.
pub data Step : System → System → Type 0 where
  queues :
      (s : System) (key : Text) (opts : Options) (now : ℤ)
      → Step s (record { wq = queue_key key opts now s.wq; live = s.live })
  starts :
      (s : System) (q : QueuedKey) (o : InProgressKey) (w : Wq)
      → start q s.wq ≡ ok (o, w)
      → Step s (record { wq = w; live = o ∷ s.live })
  completes :
      (s : System) (before after : List InProgressKey) (o : InProgressKey) (w : Wq)
      → s.live ≡ before ++ o ∷ after
      → complete o s.wq ≡ ok w
      → Step s (record { wq = w; live = before ++ after })
  requeues :
      (s : System) (before after : List InProgressKey) (o : InProgressKey) (opts : Options)
      (now : ℤ)
      → s.live ≡ before ++ o ∷ after
      → Step s (record { wq = requeue_with_options o opts now s.wq; live = before ++ after })
  deadletters :
      (s : System) (before after : List InProgressKey) (o : InProgressKey)
      → s.live ≡ before ++ o ∷ after
      → Step s (record { wq = deadletter o s.wq; live = before ++ after })

pub data Reach (limit : ℕ) : System → Type 0 where
  here : Reach limit (record { wq = new_work_queue limit; live = [] })
  next : {s t : System} → Reach limit s → Step s t → Reach limit t

abbrev pub owns : Text → List InProgressKey → Bool
owns k [] = false
owns k (o ∷ l) = text_eq o.key k || owns k l

-- No two owners have one key.
abbrev pub Distinct : List InProgressKey → Type 0
Distinct [] = Unit
Distinct (o ∷ l) = (owns o.key l ≡ false) × Distinct l

pub record Inv (s : System) : Type 0 where
  pub distinct : Distinct s.live
  pub matched : (k : Text) → is_some (lookup k s.wq.wip) ≡ owns k s.live

text_eq_comm : (a b : Text) → text_eq a b ≡ text_eq b a
text_eq_comm a b = ground (arith, text_eq_iff a b, text_eq_iff b a)

owns-middle :
    (k : Text) (before after : List InProgressKey) (o : InProgressKey)
    → owns k (before ++ o ∷ after) ≡ (text_eq o.key k || owns k (before ++ after))
owns-middle k [] after o = refl
owns-middle k (p ∷ before) after o = ground (arith, owns-middle k before after o)

-- Taking one owner out of the list.
owns-split :
    (k : Text) (before after : List InProgressKey) (o : InProgressKey)
    → Distinct (before ++ o ∷ after)
    → owns k (before ++ after) ≡ (if text_eq o.key k then false else owns k (before ++ o ∷ after))
owns-split k [] after o d = ground (arith, text_eq_iff o.key k)
owns-split k (p ∷ before) after o d = ground (
  arith,
  owns-split k before after o d.1,
  owns-middle k before after o,
  owns-middle p.key before after o,
  text_eq_iff o.key k,
  text_eq_iff p.key k,
  text_eq_iff o.key p.key,
)

Distinct-split :
    (before after : List InProgressKey) (o : InProgressKey)
    → Distinct (before ++ o ∷ after)
    → Distinct (before ++ after)
Distinct-split [] after o d = d.1
Distinct-split (p ∷ before) after o d =
    (ground (arith, owns-middle p.key before after o), Distinct-split before after o d.1)

-- Ending an owner is what the three ways to end have in common.
end-Inv :
    (s : System) (before after : List InProgressKey) (o : InProgressKey) (w : Wq)
    → s.live ≡ before ++ o ∷ after
    → w.wip ≡ delete o.key s.wq.wip
    → Inv s
    → Inv (record { wq = w; live = before ++ after })
end-Inv s before after o w split gone v =
    let d = subst Distinct split v.distinct in
    record {
      distinct = Distinct-split before after o d;
      matched = λ k.
          rw (gone, lookup-delete k o.key s.wq.wip, owns-split k before after o d)
            (ground (arith, v.matched k, ap (owns k) split));
    }

queue_key-wip :
    (key : Text) (opts : Options) (now : ℤ) (w : Wq) → (queue_key key opts now w).wip ≡ w.wip
unfolding queue_key
queue_key-wip key opts now w = ground arith

requeue-wip :
    (o : InProgressKey) (opts : Options) (now : ℤ) (w : Wq)
    → (requeue_with_options o opts now w).wip ≡ delete o.key w.wip
unfolding requeue_with_options
requeue-wip o opts now w = refl

deadletter-wip : (o : InProgressKey) (w : Wq) → (deadletter o w).wip ≡ delete o.key w.wip
unfolding deadletter
deadletter-wip o w = refl

complete-wip :
    (o : InProgressKey) (w : Wq) {w' : Wq} → complete o w ≡ ok w' → w'.wip ≡ delete o.key w.wip
unfolding complete
complete-wip o w e = ground arith

pub start-Starts :
    (q : QueuedKey) (w : Wq) (o : InProgressKey) (w' : Wq)
    → start q w ≡ ok (o, w')
    → Starts q w o w'
start-Starts q w o w' e = elim (start_cases q w) [
  | inl (f, _) ↦ absurd (cc)
  | inr (p, v, f, s) ↦ subst same (sym f ∙ e) s
]
  where
    same : Outcome (InProgressKey × Wq) → Type 0
    same (ok (p, v)) = Starts q w p v
    same _ = ⊥

Step-Inv : {s t : System} → Step s t → Inv s → Inv t
Step-Inv (queues s key opts now) v = record {
  distinct = v.distinct;
  matched = λ k. rw (queue_key-wip key opts now s.wq) (v.matched k);
}
Step-Inv (starts s q o w e) v =
    let st = start-Starts q s.wq o w e in
    record {
      distinct = (ground (arith, v.matched o.key, st.free, st.same_key), v.distinct);
      matched = λ k. rw (st.progress k) (ground (arith, v.matched k, st.same_key));
    }
Step-Inv (completes s before after o w split e) v =
    end-Inv s before after o w split (complete-wip o s.wq e) v
Step-Inv (requeues s before after o opts now split) v =
    end-Inv s before after o _ split (requeue-wip o opts now s.wq) v
Step-Inv (deadletters s before after o split) v =
    end-Inv s before after o _ split (deadletter-wip o s.wq) v

new-Inv : (limit : ℕ) → Inv (record { wq = new_work_queue limit; live = [] })
unfolding new_work_queue lookup
new-Inv limit = record { distinct = tt; matched = λ k. refl }

-- As long as each owner ends its key by at most one complete, requeue or deadletter, and nobody
-- requeues a key that Enumerate returned as in progress: however the calls of any number of callers
-- interleave, no two owners ever work on one key, and a key is marked in progress exactly while some
-- owner works on it, so that none is started twice at a time, and none stays marked once its owner
-- has ended it.
pub Reach-Inv : {limit : ℕ} {s : System} → Reach limit s → Inv s
Reach-Inv {limit} here = new-Inv limit
Reach-Inv (next r st) = Step-Inv st (Reach-Inv r)
