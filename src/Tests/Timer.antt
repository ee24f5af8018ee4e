-- ===== src/Tests/Timer.antt =====
-- src/kern/timer.c at concrete inputs: two sleeping alarms.
use illinux.Prelude.{◌≤◌, ◌<◌, ◌≡◌, arith, [], ◌∷◌, ◌++◌, true, false}
use illinux.Timer.{Alarm, Timer, alarm_sleep, timer_intr_handler}
use illinux.Timer.Alarms.{IsArmed, IsSorted, IsInserted, AllFrom, AllBefore, alarm_sleep_lem}
use illinux.Timer.Wake.{timer_intr_handler_lem}

abbrev timer : Timer
timer = record {
  sleep_list = record { cond = 1; twake = 20 } ∷ record { cond = 2; twake = 40 } ∷ [];
  next_tick = 50;
  mtcmp = 20;
}

abbrev alarm : Alarm
alarm = record { cond = 3; twake = 10 }

two-IsSorted : IsSorted timer.sleep_list
two-IsSorted = ((omega arith, tt), (tt, tt))

timer-IsArmed : IsArmed timer
timer-IsArmed = record {
  sorted = ((omega arith, tt), (tt, tt));
  in_time = (omega arith, (omega arith, tt));
  ticking = omega arith;
}

timer_intr_handler_lem_example :
    let (t', woken) = timer_intr_handler 30 25 timer in
    (timer.sleep_list ≡ woken ++ t'.sleep_list)
    × AllBefore 26 woken
    × AllFrom 26 t'.sleep_list
    × IsArmed t'
timer_intr_handler_lem_example = timer_intr_handler_lem 30 25 timer two-IsSorted

alarm_sleep_lem_example :
    let al' : Alarm = record alarm { twake = 30 } in
    let r = alarm_sleep 12 alarm 20 timer in
    IsArmed r.0
    × (r.1 ≡ al')
    × (12 ≤ 30 → (r.2 ≡ true) × IsInserted al' timer.sleep_list r.0.sleep_list)
    × (30 < 12 → (r.2 ≡ false) × (r.0 ≡ timer))
alarm_sleep_lem_example = alarm_sleep_lem 12 20 alarm timer (omega arith) timer-IsArmed
