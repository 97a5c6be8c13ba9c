-- ===== src/Proc/Mutex/Atomic.antt =====
-- `SpinlockMutex` while no call is interrupted, as under the scheduler's lock.
use muk.Prelude.{
  ℕ, ◌≡◌, ◌≢◌, refl, subst, ◌⊎◌, inl, Bool, true, false, some, ◌==◌, if◌then◌else◌, arith,
}
use native.Mathlib.Decide.{ℕ_discrete}
use muk.Proc.Mutex.{SpinlockMutex, lock, unlock, try_lock}

-- Which threads are between a call that took the lock and their call of `Unlock`.
pub record State : Type 0 where
  pub mutex : SpinlockMutex
  pub holds : ℕ → Bool

abbrev pub update : (ℕ → Bool) → ℕ → Bool → ℕ → Bool
update f t b u = if u == t then b else f u

pub data Step (s : State) : State → Type 0 where
  acquire :
      (t : ℕ) {m : SpinlockMutex}
      → t ≢ 0
      → lock t s.mutex ≡ some m
      → Step s (record { mutex = m; holds = update s.holds t true })
  attempt :
      (t : ℕ) {m : SpinlockMutex}
      → t ≢ 0
      → try_lock t s.mutex ≡ some (true, m)
      → Step s (record { mutex = m; holds = update s.holds t true })
  refuse :
      (t : ℕ) {m : SpinlockMutex}
      → try_lock t s.mutex ≡ some (false, m)
      → Step s (record s { mutex = m })
  release :
      (t : ℕ) → t ≢ 0 → Step s (record { mutex = unlock t s.mutex; holds = update s.holds t false })

pub data Reach (s : State) : State → Type 0 where
  here : Reach s s
  next : {t u : State} → Reach s t → Step t u → Reach s u

abbrev pub start : State
start = record { mutex = record { interlock = 0; l_threadid = 0 }; holds = λ _. false }

-- The fields say who holds the lock.
pub record IsSound (s : State) : Type 0 where
  pub flag :
      ((s.mutex.interlock ≡ 0) × (s.mutex.l_threadid ≡ 0))
      ⊎ ((s.mutex.interlock ≡ 1) × (s.mutex.l_threadid ≢ 0))
  pub holder : (t : ℕ) → t ≢ 0 → s.holds t ≡ (s.mutex.l_threadid == t)
  pub nobody : s.holds 0 ≡ false

Step-IsSound : {s u : State} → IsSound s → Step s u → IsSound u
unfolding lock unlock try_lock
Step-IsSound v (acquire t ne e) = record {
  flag = ground (arith, v.flag);
  holder = λ u h. ground (arith, v.flag, v.holder u h);
  nobody = ground (arith, v.nobody);
}
Step-IsSound v (attempt t ne e) = record {
  flag = ground (arith, v.flag);
  holder = λ u h. ground (arith, v.flag, v.holder u h);
  nobody = ground (arith, v.nobody);
}
Step-IsSound v (refuse t e) = record {
  flag = ground (arith, v.flag);
  holder = λ u h. ground (arith, v.flag, v.holder u h);
  nobody = ground (arith, v.nobody);
}
Step-IsSound v (release t ne) = record {
  flag = ground (arith, v.flag);
  holder = λ u h. ground (arith, v.flag, v.holder u h, v.holder t ne);
  nobody = ground (arith, v.nobody);
}

Reach-IsSound : {s : State} → Reach start s → IsSound s
Reach-IsSound here = record { flag = inl (refl, refl); holder = λ t h. ground arith; nobody = refl }
Reach-IsSound (next r st) = Step-IsSound (Reach-IsSound r) st

-- While no call is interrupted: two threads never hold the lock together, and a thread that calls
-- `Lock` while no thread holds it gets it.
pub uninterrupted_lem :
    {s : State}
    → Reach start s
    → ((i j : ℕ) → s.holds i ≡ true → s.holds j ≡ true → i ≡ j)
      × (((i : ℕ) → s.holds i ≡ false)
          → (t : ℕ) → lock t s.mutex ≡ some (record { interlock = 1; l_threadid = t }))
unfolding lock
uninterrupted_lem {s} r = (
  λ i j hi hj. same i j hi hj (ℕ_discrete i 0) (ℕ_discrete j 0),
  λ none_holds t. free t (none_holds s.mutex.l_threadid),
)
  where
    v : IsSound s
    v = Reach-IsSound r

    same : (i j : ℕ) → s.holds i ≡ true → s.holds j ≡ true → Dec (i ≡ 0) → Dec (j ≡ 0) → i ≡ j
    same i j hi hj (yes p) d = absurd (ground (arith, v.nobody, subst (λ k. s.holds k ≡ true) p hi))
    same i j hi hj (no p) (yes q) =
        absurd (ground (arith, v.nobody, subst (λ k. s.holds k ≡ true) q hj))
    same i j hi hj (no p) (no q) = ground (arith, v.holder i p, v.holder j q)

    free :
        (t : ℕ)
        → s.holds s.mutex.l_threadid ≡ false
        → lock t s.mutex ≡ some (record { interlock = 1; l_threadid = t })
    free t h = ground (arith, v.flag, v.holder s.mutex.l_threadid)
