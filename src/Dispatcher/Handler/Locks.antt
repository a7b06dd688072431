-- ===== src/Dispatcher/Handler/Locks.antt =====
-- Mutual exclusion, no lost request and no deadlock in ServeHTTP.
use terraform_cloudrun_glue.Base.{
  ℕ, ◌<◌, ◌≡◌, refl, sym, ◌∙◌, ◌≢◌, ◌⊎◌, inl, inr, Bool, true, false, arith, Bool-cases,
}
use terraform_cloudrun_glue.Dispatcher.Handler.{
  Pc, arrived, turned_away, waiting, vacating, dispatching, following, answered, deduplicated,
  State, set_pc, idle, Step, try_work, work_taken, try_wait, wait_taken, lock_work, unlock_wait,
  unlock_work, answer, Reach, here, next,
}

abbrev pub holds_work : Pc → Bool
holds_work vacating = true
holds_work dispatching = true
holds_work _ = false

abbrev pub holds_wait : Pc → Bool
holds_wait waiting = true
holds_wait vacating = true
holds_wait _ = false

-- A mutex and the requests that hold it.
record Guards (locked : Bool) (holds : ℕ → Bool) : Type 0 where
  held : (i : ℕ) → holds i ≡ true → locked ≡ true
  unique : (i j : ℕ) → holds i ≡ true → holds j ≡ true → i ≡ j
  holder : locked ≡ true → (i : ℕ) × (holds i ≡ true)

module _ (test : Pc → Bool) (pc : ℕ → Pc) (i : ℕ) (p : Pc) where
  abbrev now : ℕ → Bool
  now j = test (pc j)

  abbrev then_ : ℕ → Bool
  then_ j = test (set_pc pc i p j)

  at_self : then_ i ≡ test p
  at_self = ground arith

  at_other : (j : ℕ) → j ≢ i → then_ j ≡ now j
  at_other j h = ground arith

  pass : {b : Bool} → Guards b now → test p ≡ now i → Guards b then_
  pass g same = record {
    held = λ j h. g.held j (rw (← unmoved j) h);
    unique = λ j k h l. g.unique j k (rw (← unmoved j) h) (rw (← unmoved k) l);
    holder = λ h. let (j, e) = g.holder h in (j, unmoved j ∙ e);
  }
    where
      unmoved : (j : ℕ) → then_ j ≡ now j
      unmoved j = ground (arith, same)

  lock : Guards false now → test p ≡ true → Guards true then_
  lock g takes = record {
    held = λ j h. refl;
    unique = λ j k h l. only j h ∙ sym (only k l);
    holder = λ h. (i, at_self ∙ takes);
  }
    where
      only : (j : ℕ) → then_ j ≡ true → j ≡ i
      only j h = ground (arith, g.held j)

  unlock : {b : Bool} → Guards b now → now i ≡ true → test p ≡ false → Guards false then_
  unlock g had drops = record {
    held = λ j h. absurd (none_left j h);
    unique = λ j k h l. absurd (none_left j h);
    holder = λ h. absurd (cc);
  }
    where
      none_left : (j : ℕ) → then_ j ≡ true → ⊥
      none_left j h = ground (arith, g.unique j i)

pub record Inv (s : State) : Type 0 where
  work : Guards s.do_work (λ j. holds_work (s.pc j))
  wait : Guards s.do_wait (λ j. holds_wait (s.pc j))

idle-Inv : Inv idle
unfolding idle
idle-Inv = record {
  work = record { held = λ i h. h; unique = λ i j h k. absurd (cc); holder = λ h. absurd (cc) };
  wait = record { held = λ i h. h; unique = λ i j h k. absurd (cc); holder = λ h. absurd (cc) };
}

Step-Inv : {s t : State} → Step s t → Inv s → Inv t
Step-Inv (try_work s i e free) v = record {
  work = lock holds_work s.pc i dispatching (rw free at v.work) refl;
  wait = pass holds_wait s.pc i dispatching v.wait (rw e refl);
}
Step-Inv (work_taken s i e taken) v = record {
  work = pass holds_work s.pc i turned_away v.work (rw e refl);
  wait = pass holds_wait s.pc i turned_away v.wait (rw e refl);
}
Step-Inv (try_wait s i e free) v = record {
  work = pass holds_work s.pc i waiting v.work (rw e refl);
  wait = lock holds_wait s.pc i waiting (rw free at v.wait) refl;
}
Step-Inv (wait_taken s i e taken) v = record {
  work = pass holds_work s.pc i deduplicated v.work (rw e refl);
  wait = pass holds_wait s.pc i deduplicated v.wait (rw e refl);
}
Step-Inv (lock_work s i e free) v = record {
  work = lock holds_work s.pc i vacating (rw free at v.work) refl;
  wait = pass holds_wait s.pc i vacating v.wait (rw e refl);
}
Step-Inv (unlock_wait s i e) v = record {
  work = pass holds_work s.pc i dispatching v.work (rw e refl);
  wait = unlock holds_wait s.pc i dispatching v.wait (rw e refl) refl;
}
Step-Inv (unlock_work s i e) v = record {
  work = unlock holds_work s.pc i following v.work (rw e refl) refl;
  wait = pass holds_wait s.pc i following v.wait (rw e refl);
}
Step-Inv (answer s i e) v = record {
  work = pass holds_work s.pc i answered v.work (rw e refl);
  wait = pass holds_wait s.pc i answered v.wait (rw e refl);
}

Reach-guarded : {s : State} → Reach s → Inv s
Reach-guarded here = idle-Inv
Reach-guarded (next r st) = Step-Inv st (Reach-guarded r)

-- At any time at most one request is dispatching, and at most one is in the waiting room.
pub Reach-exclusive :
    {s : State}
    → Reach s
    → ((i j : ℕ) → holds_work (s.pc i) ≡ true → holds_work (s.pc j) ≡ true → i ≡ j)
      × ((i j : ℕ) → holds_wait (s.pc i) ≡ true → holds_wait (s.pc j) ≡ true → i ≡ j)
Reach-exclusive r = let v = Reach-guarded r in (v.work.unique, v.wait.unique)

holds_wait-cases : (p : Pc) → holds_wait p ≡ true → (p ≡ waiting) ⊎ (p ≡ vacating)
holds_wait-cases p h = ground arith

-- No request is lost: when one finds the waiting room taken and is answered at once, there is a
-- request in the waiting room that has not begun to enumerate the queue.
pub wait_taken-served :
    {s : State} → Reach s → s.do_wait ≡ true → (j : ℕ) × ((s.pc j ≡ waiting) ⊎ (s.pc j ≡ vacating))
wait_taken-served {s} r taken =
    let v = Reach-guarded r in let (j, h) = v.wait.holder taken in (j, holds_wait-cases (s.pc j) h)

abbrev pub IsFinished : Pc → Type 0
IsFinished answered = Unit {0}
IsFinished deduplicated = Unit {0}
IsFinished _ = ⊥

-- How many steps a request is from its answer at most.
abbrev pub steps_left : Pc → ℕ
steps_left arrived = 6
steps_left turned_away = 5
steps_left waiting = 4
steps_left vacating = 3
steps_left dispatching = 2
steps_left following = 1
steps_left answered = 0
steps_left deduplicated = 0

-- A step of the system that brings the request nearer to its answer.
abbrev pub Advances : State → ℕ → Type 0
Advances s j = (t : State) × Step s t × (steps_left (t.pc j) < steps_left (s.pc j))

nearer :
    (s : State) (j : ℕ) (p q : Pc)
    → s.pc j ≡ p
    → steps_left q < steps_left p
    → steps_left (set_pc s.pc j q j) < steps_left (s.pc j)
nearer s j p q e h = let at_q : set_pc s.pc j q j ≡ q = ground arith in rw (at_q, e) h

-- A request that holds doWork can go on, whatever the others do.
holder-Advances : (s : State) (j : ℕ) (p : Pc) → s.pc j ≡ p → holds_work p ≡ true → Advances s j
holder-Advances s j arrived e h = absurd (cc)
holder-Advances s j turned_away e h = absurd (cc)
holder-Advances s j waiting e h = absurd (cc)
holder-Advances s j vacating e h =
    (_, unlock_wait s j e, nearer s j vacating dispatching e (omega arith))
holder-Advances s j dispatching e h =
    (_, unlock_work s j e, nearer s j dispatching following e (omega arith))
holder-Advances s j following e h = absurd (cc)
holder-Advances s j answered e h = absurd (cc)
holder-Advances s j deduplicated e h = absurd (cc)

-- The request itself can go on, or one that it waits for can.
abbrev pub Proceeds : State → ℕ → Type 0
Proceeds s i =
    Advances s i ⊎ ((s.pc i ≡ waiting) × ((j : ℕ) × (holds_work (s.pc j) ≡ true) × Advances s j))

waiter-Proceeds : (s : State) (i : ℕ) → Inv s → s.pc i ≡ waiting → Proceeds s i
waiter-Proceeds s i v e = elim (Bool-cases s.do_work) [
  | inl taken ↦
      let (j, h) = v.work.holder taken in inr (e, (j, h, holder-Advances s j (s.pc j) refl h))
  | inr free ↦ inl (_, lock_work s i e free, nearer s i waiting vacating e (omega arith))
]

request-Proceeds : (s : State) (i : ℕ) (p : Pc) → Inv s → s.pc i ≡ p → ¬ IsFinished p → Proceeds s i
request-Proceeds s i arrived v e h = elim (Bool-cases s.do_work) [
  | inl taken ↦ inl (_, work_taken s i e taken, nearer s i arrived turned_away e (omega arith))
  | inr free ↦ inl (_, try_work s i e free, nearer s i arrived dispatching e (omega arith))
]
request-Proceeds s i turned_away v e h = elim (Bool-cases s.do_wait) [
  | inl taken ↦ inl (_, wait_taken s i e taken, nearer s i turned_away deduplicated e (omega arith))
  | inr free ↦ inl (_, try_wait s i e free, nearer s i turned_away waiting e (omega arith))
]
request-Proceeds s i waiting v e h = waiter-Proceeds s i v e
request-Proceeds s i vacating v e h =
    inl (_, unlock_wait s i e, nearer s i vacating dispatching e (omega arith))
request-Proceeds s i dispatching v e h =
    inl (_, unlock_work s i e, nearer s i dispatching following e (omega arith))
request-Proceeds s i following v e h =
    inl (_, answer s i e, nearer s i following answered e (omega arith))
request-Proceeds s i answered v e h = absurd (h tt)
request-Proceeds s i deduplicated v e h = absurd (h tt)

-- The two locks cannot deadlock: a request that is not answered has a step that brings it nearer to
-- its answer, from which it is six steps away at most, or it is in the waiting room and the request
-- that holds doWork, for which it waits, has such a step.
pub Reach-progress : {s : State} (i : ℕ) → Reach s → ¬ IsFinished (s.pc i) → Proceeds s i
Reach-progress {s} i r h = request-Proceeds s i (s.pc i) (Reach-guarded r) refl h
