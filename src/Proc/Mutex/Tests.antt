-- ===== src/Proc/Mutex/Tests.antt =====
-- The locks at small inputs.
use muk.Prelude.{ℕ, ◌≡◌, ◌≢◌, refl, true, false, List, [], ◌∷◌, some, none, arith}
use muk.Proc.Mutex.{
  SpinlockMutex, lock, unlock, try_lock, is_locked, RecursiveMutex, recursive_lock,
  recursive_unlock, recursive_try_lock,
}
use muk.Proc.Mutex.Atomic
use muk.Proc.Mutex.Atomic.{State, acquire, uninterrupted_lem}
use muk.Proc.Mutex.Threads.{idle, holding, System, Reach, start}
use muk.Proc.Mutex.Races.{both_hold, locked_for_ever}
use muk.Proc.Mutex.Recursive.{Call, locks, unlocks, tries, apply, apply_all}

abbrev unlocked : SpinlockMutex
unlocked = record { interlock = 0; l_threadid = 0 }

abbrev held_by_3 : SpinlockMutex
held_by_3 = record { interlock = 1; l_threadid = 3 }

spinlock_runs :
    (lock 3 unlocked ≡ some held_by_3)
    × (lock 4 held_by_3 ≡ none)
    × (try_lock 4 held_by_3 ≡ some (false, held_by_3))
    × (unlock 4 held_by_3 ≡ held_by_3)
    × (unlock 3 held_by_3 ≡ unlocked)
    × (is_locked held_by_3 ≡ true)
unfolding lock try_lock unlock is_locked
spinlock_runs = (refl, refl, refl, refl, refl, refl)

abbrev thread_3_holds : State
thread_3_holds = record { mutex = held_by_3; holds = Atomic.update (λ _. false) 3 true }

thread_3_reached : Atomic.Reach Atomic.start thread_3_holds
unfolding lock
thread_3_reached = Atomic.next Atomic.here (acquire 3 (omega arith) refl)

uninterrupted_lem_example :
    ((i j : ℕ) → thread_3_holds.holds i ≡ true → thread_3_holds.holds j ≡ true → i ≡ j)
    × (((i : ℕ) → thread_3_holds.holds i ≡ false)
        → (t : ℕ) → lock t held_by_3 ≡ some (record { interlock = 1; l_threadid = t }))
uninterrupted_lem_example = uninterrupted_lem thread_3_reached

both_hold_example : (s : System) × Reach start s × (s.pc 1 ≡ holding) × (s.pc 2 ≡ holding)
both_hold_example = both_hold 1 2 (omega arith) (omega arith) (omega arith)

locked_for_ever_example :
    (s : System) × Reach start s
    × (s.pc 1 ≡ idle)
    × (s.pc 2 ≡ idle)
    × ((u : System) → Reach s u → (t : ℕ) → u.pc t ≢ holding)
locked_for_ever_example = locked_for_ever 1 2 (omega arith) (omega arith) (omega arith)

abbrev recursive_once : RecursiveMutex
recursive_once = record { depth = 1; owner = 3 }

abbrev unlocks_twice : List Call
unlocks_twice = locks 3 ∷ unlocks 3 ∷ unlocks 3 ∷ tries 4 ∷ unlocks 4 ∷ []

recursive_runs : apply_all unlocks_twice recursive_once ≡ record { depth = 1; owner = 0 }
unfolding apply_all apply recursive_lock recursive_unlock recursive_try_lock
recursive_runs = refl
