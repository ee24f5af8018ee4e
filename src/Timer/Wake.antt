-- ===== src/Timer/Wake.antt =====
-- src/kern/timer.c: the interrupt handler, and the time before its first run.
use illinux.Prelude.{
  ℕ, ◌+◌, ◌-◌, ◌%◌, ◌^◌, ◌≤◌, ◌<◌, ◌≡◌, refl, ap, true, false, List, [], ◌∷◌, ◌++◌, arith, ltb, leb,
  if◌then◌else◌, Bool-cases, inl, inr,
}
use illinux.Timer.{
  Alarm, Timer, wake_expired, next_mtcmp, timer_intr_handler, timer_init, alarm_sleep, wake_time,
  insert_alarm,
}
use illinux.Timer.Alarms.{AllFrom, AllBefore, AllFrom-mono, IsSorted, IsArmed}

wake_expired_lem :
    (now : ℕ) (xs : List Alarm)
    → IsSorted xs
    → let (woken, rest) = wake_expired now xs in
      (xs ≡ woken ++ rest) × AllBefore (now + 1) woken × AllFrom (now + 1) rest × IsSorted rest
unfolding wake_expired
wake_expired_lem now [] s = (refl, tt, tt, tt)
wake_expired_lem now (x ∷ xs) s = elim (Bool-cases (leb x.twake now)) [
  | inl due ↦
      let (split, before, from, sorted) = wake_expired_lem now xs s.1 in
      rw due (ap (λ l. x ∷ l) split, (ground arith, before), from, sorted)
  | inr later ↦
      let le : now + 1 ≤ x.twake = ground arith in
      rw later (refl, tt, (le, AllFrom-mono (now + 1) x.twake xs le s.0), s)
]

next_mtcmp_lem :
    (xs : List Alarm) (tick : ℕ)
    → IsSorted xs
    → AllFrom (next_mtcmp xs tick) xs × (next_mtcmp xs tick ≤ tick)
unfolding next_mtcmp
next_mtcmp_lem [] tick s = (tt, omega arith)
next_mtcmp_lem (x ∷ xs) tick s =
    let first : next_mtcmp (x ∷ xs) tick ≤ x.twake = ground arith in
    ((first, AllFrom-mono (next_mtcmp (x ∷ xs) tick) x.twake xs first s.0), ground arith)

-- Where the list of sleeping alarms is sorted, the interrupt handler broadcasts exactly the alarms
-- whose time is not after `now`, in their order, keeps the others, and leaves the list sorted and the
-- comparator not later than any of them nor than the next tick.
pub timer_intr_handler_lem :
    (period now : ℕ) (t : Timer)
    → IsSorted t.sleep_list
    → let (t', woken) = timer_intr_handler period now t in
      (t.sleep_list ≡ woken ++ t'.sleep_list)
      × AllBefore (now + 1) woken
      × AllFrom (now + 1) t'.sleep_list
      × IsArmed t'
unfolding timer_intr_handler
timer_intr_handler_lem period now t s =
    let (woken, rest) = wake_expired now t.sleep_list in
    let tick = if ltb t.next_tick now then (t.next_tick + period) % 2 ^ 64 else t.next_tick in
    let (split, before, from, sorted) = wake_expired_lem now t.sleep_list s in
    let (in_time, ticking) = next_mtcmp_lem rest tick sorted in
    (split, before, from, record { sorted = sorted; in_time = in_time; ticking = ticking })

-- After `timer_init`, which leaves `next_tick` at 0, an alarm that is to wake before the first period
-- is over joins the list, but the comparator stays at the whole period.
pub alarm_sleep_late :
    (period now tcnt : ℕ) (al : Alarm)
    → now ≤ al.twake + tcnt
    → al.twake + tcnt < period
    → period < 2 ^ 64
    → let (t', al', waits) = alarm_sleep now al tcnt (timer_init period) in
      (waits ≡ true)
      × (t'.sleep_list ≡ al' ∷ [])
      × (al'.twake ≡ al.twake + tcnt)
      × (t'.mtcmp ≡ period)
unfolding alarm_sleep timer_init insert_alarm wake_time
alarm_sleep_late period now tcnt al due early small =
    let fits : ltb (2 ^ 64 - 1 - al.twake) tcnt ≡ false = ground arith in
    let waits : ltb (al.twake + tcnt) now ≡ false = ground arith in
    let later : ltb (al.twake + tcnt) 0 ≡ false = ground arith in
    rw (fits, waits, later) (refl, refl, refl, refl)
