-- ===== src/Timer.antt =====
-- src/kern/timer.c: alarms, the list of the sleeping ones and the timer's interrupt handler.
pub mod Alarms
pub mod Wake
use illinux.Prelude.{
  ℕ, ◌+◌, ◌-◌, ◌%◌, ◌^◌, Bool, true, false, List, [], ◌∷◌, ltb, leb, if◌then◌else◌,
}

-- `struct alarm`: `cond` identifies the condition variable that the alarm's owner waits on. `next` is
-- the alarm's place in the list.
pub record Alarm : Type 0 where
  pub cond : ℕ
  pub twake : ℕ

-- The static variables with the comparator register.
pub record Timer : Type 0 where
  pub sleep_list : List Alarm
  pub next_tick : ℕ
  pub mtcmp : ℕ

abbrev pub uint64_max : ℕ
uint64_max = 2 ^ 64 - 1

-- `timer_init`; `period` is TICK_PERIOD. The static `next_tick` starts as 0.
unfoldable pub timer_init : ℕ → Timer
timer_init period = record { sleep_list = []; next_tick = 0; mtcmp = period }

unfoldable pub alarm_init : ℕ → ℕ → Alarm
alarm_init now cond = record { cond = cond; twake = now }

unfoldable pub alarm_reset : ℕ → Alarm → Alarm
alarm_reset now al = record al { twake = now }

-- The wake-up time that `alarm_sleep` computes.
unfoldable pub wake_time : ℕ → ℕ → ℕ
wake_time twake tcnt = if ltb (uint64_max - twake) tcnt then uint64_max else twake + tcnt

-- The loop of `alarm_sleep`, on the alarms behind `prev`.
unfoldable pub insert_behind : Alarm → List Alarm → List Alarm
insert_behind al [] = al ∷ []
insert_behind al (x ∷ xs) =
    let rest = insert_behind al xs in if leb al.twake x.twake then al ∷ x ∷ xs else x ∷ rest

-- The insertion of `alarm_sleep` at the head of the list.
unfoldable pub insert_head : Alarm → Timer → Timer
insert_head al t = record t {
  sleep_list = al ∷ t.sleep_list;
  mtcmp = if ltb al.twake t.next_tick then al.twake else t.mtcmp;
}

unfoldable pub insert_alarm : Alarm → Timer → Timer
unfolding insert_head insert_behind
insert_alarm al t = elim t.sleep_list [
  | [] ↦ insert_head al t
  | head ∷ tail ↦
      if leb al.twake head.twake
      then insert_head al t
      else record t { sleep_list = head ∷ insert_behind al tail }
]

-- `alarm_sleep` at the time `now`, up to the point where the caller waits: the timer, the alarm, and
-- whether the caller waits at all.
unfoldable pub alarm_sleep : ℕ → Alarm → ℕ → Timer → Timer × Alarm × Bool
unfolding insert_alarm wake_time
alarm_sleep now al tcnt t =
    let al' = record al { twake = wake_time al.twake tcnt } in
    if ltb al'.twake now then (t, al', false) else (insert_alarm al' t, al', true)

-- The loop of `timer_intr_handler`: the alarms that are broadcast, and those that stay.
unfoldable pub wake_expired : ℕ → List Alarm → List Alarm × List Alarm
wake_expired now [] = ([], [])
wake_expired now (x ∷ xs) =
    let (woken, rest) = wake_expired now xs in
    if leb x.twake now then (x ∷ woken, rest) else ([], x ∷ xs)

-- The value that the handler gives the comparator.
unfoldable pub next_mtcmp : List Alarm → ℕ → ℕ
next_mtcmp [] tick = tick
next_mtcmp (x ∷ xs) tick = if ltb x.twake tick then x.twake else tick

unfoldable pub timer_intr_handler : ℕ → ℕ → Timer → Timer × List Alarm
unfolding wake_expired next_mtcmp
timer_intr_handler period now t =
    let (woken, head) = wake_expired now t.sleep_list in
    let tick = if ltb t.next_tick now then (t.next_tick + period) % 2 ^ 64 else t.next_tick in
    (record t { sleep_list = head; next_tick = tick; mtcmp = next_mtcmp head tick }, woken)
