-- ===== src/Proc/Mutex.antt =====
-- The locks of kernel/proc/mutex.cpp. The functions here are the calls of one thread that no other
-- thread interrupts; `Threads` has the same code one memory access at a time.
pub mod Atomic
pub mod Threads
pub mod Races
pub mod Recursive
mod Tests
use muk.Prelude.{
  ℕ, ◌+◌, ◌-◌, Bool, true, false, not, ◌&&◌, ◌||◌, Option, none, some, ◌==◌, ltb, if◌then◌else◌,
}
use muk.Word.{add32, sub32}

-- The fields of `SpinlockMutex`; a thread's id is not 0.
pub record SpinlockMutex : Type 0 where
  pub interlock : ℕ
  pub l_threadid : ℕ

-- `Lock`; `none` is a loop that no other thread ends.
pub lock : ℕ → SpinlockMutex → Option SpinlockMutex
lock thread_id m =
    if m.interlock == 0 then some (record { interlock = 1; l_threadid = thread_id }) else none

pub unlock : ℕ → SpinlockMutex → SpinlockMutex
unlock thread_id m =
    if m.l_threadid == thread_id then record { interlock = 0; l_threadid = 0 } else m

pub try_lock : ℕ → SpinlockMutex → Option (Bool × SpinlockMutex)
unfolding lock
try_lock thread_id m =
    if m.l_threadid == 0
    then elim (lock thread_id m) [ none ↦ none | some m' ↦ some (true, m') ]
    else some (false, m)

pub is_locked : SpinlockMutex → Bool
is_locked m = not (m.interlock == 0)

pub record RecursiveMutex : Type 0 where
  pub depth : ℕ
  pub owner : ℕ

pub recursive_lock : ℕ → RecursiveMutex → RecursiveMutex
recursive_lock thread_id m = record { depth = add32 m.depth 1; owner = thread_id }

pub recursive_unlock : ℕ → RecursiveMutex → RecursiveMutex
recursive_unlock thread_id m =
    if m.owner == thread_id && ltb 1 m.depth
    then record { depth = sub32 m.depth 1; owner = 0 }
    else m

pub recursive_try_lock : ℕ → RecursiveMutex → Bool × RecursiveMutex
unfolding recursive_lock
recursive_try_lock thread_id m =
    if m.owner == thread_id || m.owner == 0 then (true, recursive_lock thread_id m) else (false, m)
