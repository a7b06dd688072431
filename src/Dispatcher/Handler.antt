-- ===== src/Dispatcher/Handler.antt =====
-- pkg/workqueue/dispatcher/handler.go: ServeHTTP for any number of requests at once, as a step
-- relation over the two mutexes. A request is a number; TryLock, Lock and Unlock are one step each.
pub mod Locks
use terraform_cloudrun_glue.Base.{ℕ, ◌≡◌, Bool, true, false, if◌then◌else◌, ◌==◌}

-- Where a request stands in ServeHTTP.
pub data Pc : Type 0 where
  -- before doWork.TryLock
  arrived : Pc
  -- doWork.TryLock has failed
  turned_away : Pc
  -- in the waiting room, in doWork.Lock
  waiting : Pc
  -- holds both locks, before doWait.Unlock
  vacating : Pc
  -- in HandleAsync
  dispatching : Pc
  -- doWork is unlocked, waits for the future
  following : Pc
  -- answered after its own round
  answered : Pc
  -- answered at once, for the one in the waiting room serves it too
  deduplicated : Pc

pub record State : Type 0 where
  pub do_work : Bool
  pub do_wait : Bool
  pub pc : ℕ → Pc

abbrev pub set_pc : (ℕ → Pc) → ℕ → Pc → ℕ → Pc
set_pc pc i p j = if j == i then p else pc j

unfoldable pub idle : State
idle = record { do_work = false; do_wait = false; pc = λ _. arrived }

pub data Step : State → State → Type 0 where
  try_work :
      (s : State) (i : ℕ)
      → s.pc i ≡ arrived
      → s.do_work ≡ false
      → Step s (record { do_work = true; do_wait = s.do_wait; pc = set_pc s.pc i dispatching })
  work_taken :
      (s : State) (i : ℕ)
      → s.pc i ≡ arrived
      → s.do_work ≡ true
      → Step s (record { do_work = s.do_work; do_wait = s.do_wait; pc = set_pc s.pc i turned_away })
  try_wait :
      (s : State) (i : ℕ)
      → s.pc i ≡ turned_away
      → s.do_wait ≡ false
      → Step s (record { do_work = s.do_work; do_wait = true; pc = set_pc s.pc i waiting })
  wait_taken :
      (s : State) (i : ℕ)
      → s.pc i ≡ turned_away
      → s.do_wait ≡ true
      → Step s
          (record { do_work = s.do_work; do_wait = s.do_wait; pc = set_pc s.pc i deduplicated })
  lock_work :
      (s : State) (i : ℕ)
      → s.pc i ≡ waiting
      → s.do_work ≡ false
      → Step s (record { do_work = true; do_wait = s.do_wait; pc = set_pc s.pc i vacating })
  unlock_wait :
      (s : State) (i : ℕ)
      → s.pc i ≡ vacating
      → Step s (record { do_work = s.do_work; do_wait = false; pc = set_pc s.pc i dispatching })
  unlock_work :
      (s : State) (i : ℕ)
      → s.pc i ≡ dispatching
      → Step s (record { do_work = false; do_wait = s.do_wait; pc = set_pc s.pc i following })
  answer :
      (s : State) (i : ℕ)
      → s.pc i ≡ following
      → Step s (record { do_work = s.do_work; do_wait = s.do_wait; pc = set_pc s.pc i answered })

pub data Reach : State → Type 0 where
  here : Reach idle
  next : {s t : State} → Reach s → Step s t → Reach t
