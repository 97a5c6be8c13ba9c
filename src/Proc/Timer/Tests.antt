-- ===== src/Proc/Timer/Tests.antt =====
-- A concrete timer.
use muk.Prelude.{◌+◌, ◌-◌, ◌≡◌, none, some, true, false, if◌then◌else◌, ltb, arith}
use muk.Proc.Timer.{Timer, sleep}
use muk.Proc.Timer.Slices.{ticks}
use muk.Proc.Timer.Sleeping.{sleep_lem}

abbrev late_timer : Timer
late_timer = record { timer_ticks = 1000; timer_tenths = 20; is_sleeping = false }

sleep_lem_example :
    (sleep 7 5 late_timer ≡ (
      if ltb 7 5
      then none
      else some
          (record { timer_ticks = 1000 + 5; timer_tenths = 20 + 5; is_sleeping = false }, 7 - 5)))
    × ((ticks 5 (record late_timer { is_sleeping = true })).1 ≡ 0)
sleep_lem_example = sleep_lem 7 5 late_timer (omega arith) (omega arith)
