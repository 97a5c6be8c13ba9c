-- ===== src/Proc/Timer/Sleeping.antt =====
-- How long `Timer::sleep` waits.
use muk.Prelude.{
  ℕ, zero, suc, ◌+◌, ◌-◌, ◌%◌, ◌^◌, ◌<◌, ◌≡◌, refl, sym, ap, ◌∙◌, none, some, Bool, true, false,
  if◌then◌else◌, ltb, arith, Bool-cases, inl, inr,
}
use muk.Proc.Timer.{Timer, timer_irq, sleep_loop, sleep}
use muk.Proc.Timer.Slices.{ticks}

irq-asleep :
    (s : Timer)
    → s.timer_ticks + 1 < 2 ^ 64
    → s.timer_tenths + 1 < 2 ^ 32
    → s.is_sleeping ≡ true
    → timer_irq s ≡ (
      record {
        timer_ticks = s.timer_ticks + 1;
        timer_tenths = s.timer_tenths + 1;
        is_sleeping = true;
      },
      false,
    )
unfolding timer_irq
irq-asleep s h k a =
    let e : (s.timer_ticks + 1) % 2 ^ 64 ≡ s.timer_ticks + 1 = omega arith in
    let f : (s.timer_tenths + 1) % 2 ^ 32 ≡ s.timer_tenths + 1 = omega arith in
    rw (e, f, a) (ground arith)

abbrev later : ℕ → Bool → Timer → Timer
later k sleeping s = record {
  timer_ticks = s.timer_ticks + k;
  timer_tenths = s.timer_tenths + k;
  is_sleeping = sleeping;
}

later_once_more : (k : ℕ) (s : Timer) → later k true (later 1 true s) ≡ later (suc k) true s
later_once_more k s =
    let e : s.timer_ticks + 1 + k ≡ s.timer_ticks + suc k = omega arith in
    let f : s.timer_tenths + 1 + k ≡ s.timer_tenths + suc k = omega arith in rw (e, f) refl

later_zero : (s : Timer) → s.is_sleeping ≡ true → later 0 true s ≡ s
later_zero s a =
    let e : s.timer_ticks + 0 ≡ s.timer_ticks = omega arith in
    let f : s.timer_tenths + 0 ≡ s.timer_tenths = omega arith in rw (e, f, a) refl

loop_lem :
    (n k : ℕ) (s : Timer)
    → s.timer_ticks + k < 2 ^ 64
    → s.timer_tenths + k < 2 ^ 32
    → s.is_sleeping ≡ true
    → sleep_loop n (s.timer_ticks + k) s ≡ (if ltb n k then none else some (later k true s, n - k))
unfolding sleep_loop
loop_lem zero zero s h g a =
    let c : ltb s.timer_ticks (s.timer_ticks + 0) ≡ false = ground arith in
    rw c (ap (λ (t : Timer). some (t, 0)) (sym (later_zero s a)))
loop_lem (suc n) zero s h g a =
    let c : ltb s.timer_ticks (s.timer_ticks + 0) ≡ false = ground arith in
    let d : ltb (suc n) 0 ≡ false = ground arith in
    rw (c, d, later_zero s a) (ap (λ (m : ℕ). some (s, m)) (omega arith))
loop_lem zero (suc k) s h g a = ground arith
loop_lem (suc n) (suc k) s h g a =
    let ih = loop_lem n k (later 1 true s) (omega arith) (omega arith) refl in
    let e : s.timer_ticks + suc k ≡ s.timer_ticks + 1 + k = omega arith in
    let w : ltb s.timer_ticks (s.timer_ticks + suc k) ≡ true = ground arith in
    let same : ltb (suc n) (suc k) ≡ ltb n k = ground arith in
    let left : suc n - suc k ≡ n - k = omega arith in
    rw (irq-asleep s (omega arith) (omega arith) a, w, same, left, e)
      (ih ∙ rw (later_once_more k s, e) refl)

no_switch :
    (k : ℕ) (s : Timer)
    → s.timer_ticks + k < 2 ^ 64
    → s.timer_tenths + k < 2 ^ 32
    → s.is_sleeping ≡ true
    → (ticks k s).1 ≡ 0
unfolding ticks
no_switch zero s h g a = refl
no_switch (suc k) s h g a =
    rw (irq-asleep s (omega arith) (omega arith) a)
      (no_switch k (later 1 true s) (omega arith) (omega arith) refl)

-- While neither counter overflows, `sleep` for `k` ticks returns after exactly `k` timer interrupts,
-- still waits when fewer come, and none of them switches threads; afterwards nobody sleeps and both
-- counters have grown by `k`.
pub sleep_lem :
    (n k : ℕ) (s : Timer)
    → s.timer_ticks + k < 2 ^ 64
    → s.timer_tenths + k < 2 ^ 32
    → (sleep n k s ≡ (
        if ltb n k
        then none
        else some (
          record {
            timer_ticks = s.timer_ticks + k;
            timer_tenths = s.timer_tenths + k;
            is_sleeping = false;
          },
          n - k,
        )))
      × ((ticks k (record s { is_sleeping = true })).1 ≡ 0)
unfolding sleep
sleep_lem n k s h g =
    let e : (s.timer_ticks + k) % 2 ^ 64 ≡ s.timer_ticks + k = omega arith in
    let loop = loop_lem n k (record s { is_sleeping = true }) h g refl in
    (
      elim (Bool-cases (ltb n k)) [
        | inl c ↦ rw (c, sleep, e, loop, c) refl
        | inr c ↦ rw (c, sleep, e, loop, c) refl
      ],
      no_switch k (record s { is_sleeping = true }) h g refl,
    )
