-- ===== src/Proc/Thread/Turns.antt =====
-- `Scheduler::next` goes round the ring.
use native.Mathlib.Decide.{ℕ_discrete}
use native.Mathlib.Nat.{mod-lt, mod-eq_of_lt, mod_self, mod-add-mod}
use muk.Prelude.{
  ℕ, zero, suc, ◌+◌, ◌%◌, ◌≤◌, ◌<◌, ◌≡◌, ap, ◌∙◌, ◌⊎◌, inl, inr, List, Option, none, some, arith,
  ◌==◌, if◌then◌else◌, ◌>>=◌, Bool-cases,
}
use muk.Proc.Thread.{Thread, Threads, scheduler_next}
use muk.Proc.Thread.Ring.{after, before, IsRing}

after-mod : (n i : ℕ) → i < n → after n i ≡ (i + 1) % n
after-mod n i h = elim (ℕ_discrete (i + 1) n) [
  | yes e ↦ ground (arith, mod_self n)
  | no ne ↦ ground (arith, mod-eq_of_lt {n = i + 1} {m = n})
]

before-after : (n i : ℕ) → i < n → before n (after n i) ≡ i
before-after n i h = ground arith

scheduler_next-ring :
    (n : ℕ) (s : Threads) (i : ℕ)
    → IsRing n s
    → i < n
    → scheduler_next s.store i ≡ (if n == 1 then none else some ((i + 1) % n, i))
unfolding scheduler_next
scheduler_next-ring n s i r h =
    rw (r.nexts i h, r.prevs (after n i) (ground arith), ← after-mod n i h, before-after n i h)
      (elim (Bool-cases (n == 1)) [ inl e ↦ rw e | inr e ↦ rw e ])

-- `k` turns from thread `running`: the thread that runs then.
unfoldable pub turns : ℕ → List Thread → ℕ → Option ℕ
turns zero store running = some running
turns (suc k) store running = scheduler_next store running >>= λ r. turns k store r.0

turns-ring :
    (n : ℕ) (s : Threads) (k i : ℕ)
    → IsRing n s
    → ¬ (n ≡ 1)
    → i < n
    → turns k s.store i ≡ some ((i + k) % n)
unfolding turns
turns-ring n s zero i r ne h = ground (arith, mod-eq_of_lt {n = i + 0} {m = n})
turns-ring n s (suc k) i r ne h =
    let one : scheduler_next s.store i ≡ some ((i + 1) % n, i) =
      scheduler_next-ring n s i r h ∙ ground arith in
    rw (one, turns)
      (turns-ring n s k ((i + 1) % n) r ne (mod-lt (i + 1) r.some_thread)
        ∙ ap some (mod-add-mod (i + 1) n k ∙ ap (λ t. t % n) (omega arith)))

-- Once the scheduler has started, in a ring of two threads or more each call of `next` saves the stack pointer in
-- the thread that was running, and after `k` calls the thread `k` places further round the ring runs. In a ring of one
-- thread it uses a null pointer.
pub turns_lem :
    (n : ℕ) (s : Threads) (i k : ℕ)
    → IsRing n s
    → i < n
    → ((n ≡ 1) × (scheduler_next s.store i ≡ none))
      ⊎ ((2 ≤ n)
          × (scheduler_next s.store i ≡ some ((i + 1) % n, i))
          × (turns k s.store i ≡ some ((i + k) % n)))
turns_lem n s i k r h = elim (ℕ_discrete n 1) [
  | yes e ↦ inl (e, scheduler_next-ring n s i r h ∙ ground arith)
  | no ne ↦ inr (
    omega (arith, r.some_thread),
    scheduler_next-ring n s i r h ∙ ground arith,
    turns-ring n s k i r ne h,
  )
]
