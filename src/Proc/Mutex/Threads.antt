-- ===== src/Proc/Mutex/Threads.antt =====
-- Threads that use one `SpinlockMutex`. The timer may switch threads between any two accesses to its
-- fields, so a step is one access of one thread.
use muk.Prelude.{ℕ, ◌≡◌, ◌≢◌, ◌==◌, if◌then◌else◌}
use muk.Proc.Mutex.{SpinlockMutex}

-- Where a thread stands.
pub data Pc : Type 0 where
  idle : Pc  -- outside, before `Lock`
  spinning : Pc  -- the `while (interlock)` of `Lock`
  passed : Pc  -- the test is over, `l_threadid` not yet written
  claimed : Pc  -- `l_threadid` is written, `interlock` not yet
  holding : Pc  -- `Lock` has returned
  leaving : Pc  -- in `Unlock`, after its test
  freed : Pc  -- `interlock` is 0 again, `l_threadid` not yet

-- One access by thread `t`.
pub data Move (t : ℕ) (m : SpinlockMutex) : Pc → SpinlockMutex → Pc → Type 0 where
  call : Move t m idle m spinning
  spin : m.interlock ≢ 0 → Move t m spinning m spinning
  pass : m.interlock ≡ 0 → Move t m spinning m passed
  claim : Move t m passed (record m { l_threadid = t }) claimed
  mark : Move t m claimed (record m { interlock = 1 }) holding
  own : m.l_threadid ≡ t → Move t m holding m leaving
  ignore : m.l_threadid ≢ t → Move t m holding m idle
  free : Move t m leaving (record m { interlock = 0 }) freed
  clear : Move t m freed (record m { l_threadid = 0 }) idle

pub record System : Type 0 where
  pub mutex : SpinlockMutex
  pub pc : ℕ → Pc

abbrev pub update : (ℕ → Pc) → ℕ → Pc → ℕ → Pc
update f t p u = if u == t then p else f u

pub data Step (s : System) : System → Type 0 where
  access :
      (t : ℕ) {m : SpinlockMutex} {p : Pc}
      → t ≢ 0
      → Move t s.mutex (s.pc t) m p
      → Step s (record { mutex = m; pc = update s.pc t p })

pub data Reach (s : System) : System → Type 0 where
  here : Reach s s
  next : {t u : System} → Reach s t → Step t u → Reach s u

-- The mutex as its storage starts, all threads outside.
abbrev pub start : System
start = record { mutex = record { interlock = 0; l_threadid = 0 }; pc = λ _. idle }
