-- ===== src/Proc/Timer/Slices.antt =====
-- When the timer interrupt switches threads.
use native.Mathlib.Decide.{ℕ_discrete}
use muk.Prelude.{
  ℕ, zero, suc, ◌+◌, ◌/◌, ◌%◌, ◌^◌, ◌≤◌, ◌≡◌, refl, ◌∙◌, Bool, true, false, not, ◌==◌,
  if◌then◌else◌, ltb, arith,
}
use muk.Proc.Timer.{Timer, timer_irq, timer_yield, scheduler_yield, scheduler_unlock}

-- `n` timer interrupts: the timer after them and how many of them switched threads.
unfoldable pub ticks : ℕ → Timer → Timer × ℕ
ticks zero s = (s, 0)
ticks (suc n) s =
    let r = timer_irq s in let rest = ticks n r.0 in (rest.0, if r.1 then rest.1 + 1 else rest.1)

irq-switch :
    (s : Timer)
    → s.timer_tenths ≤ 25
    → s.is_sleeping ≡ false
    → timer_irq s ≡ (
      record {
        timer_ticks = (s.timer_ticks + 1) % 2 ^ 64;
        timer_tenths = (s.timer_tenths + 1) % 26;
        is_sleeping = false;
      },
      (s.timer_tenths + 1) == 26,
    )
unfolding timer_irq
irq-switch s h a = elim (ℕ_discrete s.timer_tenths 25) [
  | yes e ↦ rw (e, a) refl
  | no ne ↦
      let small : (s.timer_tenths + 1) % 2 ^ 32 ≡ s.timer_tenths + 1 = omega arith in
      let below : (s.timer_tenths + 1) % 26 ≡ s.timer_tenths + 1 = omega arith in
      let stays : ltb 25 (s.timer_tenths + 1) ≡ false = ground arith in
      let differs : (s.timer_tenths + 1 == 26) ≡ false = ground arith in
      rw (small, below, stays, differs, a) refl
]

-- From a count of at most 25, while no thread sleeps: after `n` interrupts the count is what the 26
-- of a time slice leave, and one switch has happened for each full slice.
pub ticks_lem :
    (n : ℕ) (s : Timer)
    → s.timer_tenths ≤ 25
    → s.is_sleeping ≡ false
    → ((ticks n s).0.timer_tenths ≡ (s.timer_tenths + n) % 26)
      × ((ticks n s).1 ≡ (s.timer_tenths + n) / 26)
unfolding ticks
ticks_lem zero s h a = (omega arith, omega arith)
ticks_lem (suc n) s h a =
    let t : Timer = record {
      timer_ticks = (s.timer_ticks + 1) % 2 ^ 64;
      timer_tenths = (s.timer_tenths + 1) % 26;
      is_sleeping = false;
    } in
    let (p, q) = ticks_lem n t (omega arith) refl in
    rw (irq-switch s h a) (p ∙ omega arith, ground (arith, q))

-- After `Scheduler::yield` the next timer interrupt switches threads, unless a thread sleeps; and
-- the scheduler is unlocked.
pub scheduler_yield_lem :
    (running : Bool) (s : Timer)
    → ((scheduler_yield running s).0 ≡ true)
      × ((timer_irq (scheduler_yield running s).1).1 ≡ not s.is_sleeping)
unfolding scheduler_yield scheduler_unlock timer_yield timer_irq
scheduler_yield_lem true s = (refl, ground arith)
scheduler_yield_lem false s = (refl, ground arith)
