-- ===== src/Proc/Timer.antt =====
-- The timer interrupt of kernel/timer.cpp and the lock of kernel/proc/scheduler.cpp.
pub mod Slices
pub mod Sleeping
mod Tests
use muk.Prelude.{
  ℕ, zero, suc, ◌+◌, ◌%◌, ◌^◌, ◌<◌, Option, none, some, Bool, true, false, ◌&&◌, not, if◌then◌else◌,
  ltb,
}
use muk.Word.{add32}

pub record Timer : Type 0 where
  pub timer_ticks : ℕ
  pub timer_tenths : ℕ
  pub is_sleeping : Bool

pub init_timer : Timer
init_timer = record { timer_ticks = 0; timer_tenths = 0; is_sleeping = false }

-- `timer_irq`, and whether it calls `Scheduler::next`.
pub timer_irq : Timer → Timer × Bool
timer_irq s =
    let t : Timer = record s {
      timer_ticks = (s.timer_ticks + 1) % 2 ^ 64;
      timer_tenths = add32 s.timer_tenths 1;
    } in
    if ltb 25 t.timer_tenths && not t.is_sleeping
    then (record t { timer_tenths = 0 }, true)
    else (t, false)

-- `Timer::yield`, less the instruction that lets interrupts in.
pub timer_yield : Timer → Timer
timer_yield s = record s { timer_tenths = 100 }

-- `while (timer_ticks < eticks)` of `Timer::sleep`. Each round waits for one timer interrupt, and
-- `n` interrupts come in all: `none` when the loop still waits after them.
pub sleep_loop : ℕ → ℕ → Timer → Option (Timer × ℕ)
unfolding timer_irq
sleep_loop zero eticks s = if ltb s.timer_ticks eticks then none else some (s, 0)
sleep_loop (suc n) eticks s =
    let rest = sleep_loop n eticks (timer_irq s).0 in
    if ltb s.timer_ticks eticks then rest else some (s, suc n)

-- `Timer::sleep`, for a count that is not negative, with the number of interrupts that are left when
-- it returns.
pub sleep : ℕ → ℕ → Timer → Option (Timer × ℕ)
unfolding sleep_loop
sleep n ticks s =
    elim (sleep_loop n ((s.timer_ticks + ticks) % 2 ^ 64) (record s { is_sleeping = true })) [
      | none ↦ none
      | some (t, left) ↦ some (record t { is_sleeping = false }, left)
    ]

-- `Scheduler::lock` and `Scheduler::unlock` on the flag `running`: the result and the new flag.
pub scheduler_lock : Bool → Bool × Bool
scheduler_lock running = if running then (true, false) else (false, running)

pub scheduler_unlock : Bool → Bool × Bool
scheduler_unlock running = if not running then (true, true) else (false, running)

-- `Scheduler::yield`
pub scheduler_yield : Bool → Timer → Bool × Timer
unfolding scheduler_unlock timer_yield
scheduler_yield running s = ((scheduler_unlock running).1, timer_yield s)
