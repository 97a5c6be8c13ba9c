-- ===== src/Proc/Mutex/Recursive.antt =====
-- `RecursiveMutex`: how its count goes.
use muk.Prelude.{ℕ, ◌+◌, ◌≤◌, ◌<◌, ◌^◌, suc, List, [], ◌∷◌, length, arith}
use muk.Proc.Mutex.{RecursiveMutex, recursive_lock, recursive_unlock, recursive_try_lock}

-- The calls, each with the thread that makes it.
pub data Call : Type 0 where
  locks unlocks tries : ℕ → Call

unfoldable pub apply : Call → RecursiveMutex → RecursiveMutex
apply (locks t) m = recursive_lock t m
apply (unlocks t) m = recursive_unlock t m
apply (tries t) m = (recursive_try_lock t m).1

unfoldable pub apply_all : List Call → RecursiveMutex → RecursiveMutex
apply_all [] m = m
apply_all (c ∷ cs) m = apply_all cs (apply c m)

apply-depth :
    (c : Call) (m : RecursiveMutex) (k : ℕ)
    → 1 ≤ m.depth
    → m.depth + suc k < 2 ^ 31
    → (1 ≤ (apply c m).depth) × ((apply c m).depth + k < 2 ^ 31)
unfolding apply recursive_lock recursive_unlock recursive_try_lock
apply-depth (locks t) m k h b = ground arith
apply-depth (unlocks t) m k h b = ground arith
apply-depth (tries t) m k h b = ground arith

-- A recursive mutex that has been locked is locked for ever: no sequence of calls, by whatever
-- threads, brings its count back to 0, unless it is long enough for the int to overflow.
pub depth-apply_all :
    (cs : List Call) (m : RecursiveMutex)
    → 1 ≤ m.depth
    → m.depth + length cs < 2 ^ 31
    → 1 ≤ (apply_all cs m).depth
unfolding apply_all
depth-apply_all [] m h b = h
depth-apply_all (c ∷ cs) m h b =
    let (h', b') = apply-depth c m (length cs) h b in depth-apply_all cs (apply c m) h' b'
