-- ===== src/Timer/Alarms.antt =====
-- src/kern/timer.c: the list of sleeping alarms and the comparator.
use illinux.Prelude.{
  ℕ, ◌+◌, ◌≤◌, ◌<◌, ◌≡◌, refl, sym, ap, min, true, false, List, [], ◌∷◌, ◌++◌, arith, ltb, leb,
  Bool-cases, inl, inr,
}
use illinux.Timer.{
  uint64_max, Alarm, Timer, insert_behind, insert_head, insert_alarm, alarm_sleep, wake_time,
}

-- All alarms of the list wake at `t` or later.
abbrev pub AllFrom : ℕ → List Alarm → Type 0
AllFrom t [] = Unit {0}
AllFrom t (x ∷ xs) = (t ≤ x.twake) × AllFrom t xs

-- All alarms of the list wake before `t`.
abbrev pub AllBefore : ℕ → List Alarm → Type 0
AllBefore t [] = Unit {0}
AllBefore t (x ∷ xs) = (x.twake < t) × AllBefore t xs

abbrev pub IsSorted : List Alarm → Type 0
IsSorted [] = Unit {0}
IsSorted (x ∷ xs) = AllFrom x.twake xs × IsSorted xs

-- The list is sorted, and no interrupt is due later than the next alarm or the next tick.
pub record IsArmed (t : Timer) : Type 0 where
  pub sorted : IsSorted t.sleep_list
  pub in_time : AllFrom t.mtcmp t.sleep_list
  pub ticking : t.mtcmp ≤ t.next_tick

pub AllFrom-mono : (s t : ℕ) (xs : List Alarm) → s ≤ t → AllFrom t xs → AllFrom s xs
AllFrom-mono s t [] le all = tt
AllFrom-mono s t (x ∷ xs) le all = (omega (arith, all.0), AllFrom-mono s t xs le all.1)

AllFrom-insert_behind :
    (t : ℕ) (al : Alarm) (xs : List Alarm)
    → t ≤ al.twake
    → AllFrom t xs
    → AllFrom t (insert_behind al xs)
unfolding insert_behind
AllFrom-insert_behind t al [] le all = (le, tt)
AllFrom-insert_behind t al (x ∷ xs) le all = elim (Bool-cases (leb al.twake x.twake)) [
  | inl before ↦ rw before (le, (all.0, all.1))
  | inr behind ↦ rw behind (all.0, AllFrom-insert_behind t al xs le all.1)
]

insert_behind-IsSorted :
    (al : Alarm) (xs : List Alarm) → IsSorted xs → IsSorted (insert_behind al xs)
unfolding insert_behind
insert_behind-IsSorted al [] s = (tt, tt)
insert_behind-IsSorted al (x ∷ xs) s = elim (Bool-cases (leb al.twake x.twake)) [
  | inl before ↦
      let le : al.twake ≤ x.twake = ground arith in
      rw before ((le, AllFrom-mono al.twake x.twake xs le s.0), (s.0, s.1))
  | inr behind ↦
      rw behind
        (AllFrom-insert_behind x.twake al xs (ground arith) s.0, insert_behind-IsSorted al xs s.1)
]

insert_head-IsArmed :
    (al : Alarm) (t : Timer)
    → IsArmed t
    → AllFrom al.twake t.sleep_list
    → IsArmed (insert_head al t)
unfolding insert_head
insert_head-IsArmed al t a all = elim (Bool-cases (ltb al.twake t.next_tick)) [
  | inl soon ↦
      rw soon
        (record { sorted = (all, a.sorted); in_time = (omega arith, all); ticking = ground arith })
  | inr later ↦ rw later (record {
    sorted = (all, a.sorted);
    in_time = (ground (arith, a.ticking), a.in_time);
    ticking = a.ticking;
  })
]

insert_alarm-IsArmed :
    (al : Alarm) (xs : List Alarm) (tick cmp : ℕ)
    → let t : Timer = record { sleep_list = xs; next_tick = tick; mtcmp = cmp } in
      IsArmed t → IsArmed (insert_alarm al t)
unfolding insert_alarm
insert_alarm-IsArmed al [] tick cmp a = insert_head-IsArmed al _ a tt
insert_alarm-IsArmed al (x ∷ xs) tick cmp a = elim (Bool-cases (leb al.twake x.twake)) [
  | inl first ↦
      let le : al.twake ≤ x.twake = ground arith in
      rw first (insert_head-IsArmed al _ a (le, AllFrom-mono al.twake x.twake xs le a.sorted.0))
  | inr behind ↦
      let le : x.twake ≤ al.twake = ground arith in
      rw behind (record {
        sorted = (
          AllFrom-insert_behind x.twake al xs le a.sorted.0,
          insert_behind-IsSorted al xs a.sorted.1,
        );
        in_time = (
          a.in_time.0,
          AllFrom-insert_behind cmp al xs (omega (arith, le, a.in_time.0)) a.in_time.1,
        );
        ticking = a.ticking;
      })
]

-- Where the list of sleeping alarms is sorted and the timer's comparator is not later than any of
-- them nor than the next tick, this is so after `alarm_sleep` as well, on each of its branches.
pub alarm_sleep-IsArmed :
    (now tcnt : ℕ) (al : Alarm) (t : Timer) → IsArmed t → IsArmed (alarm_sleep now al tcnt t).0
unfolding alarm_sleep
alarm_sleep-IsArmed now tcnt al t a = elim (Bool-cases (ltb (wake_time al.twake tcnt) now)) [
  | inl over ↦ rw over a
  | inr waits ↦ rw waits (
      insert_alarm-IsArmed (record al { twake = wake_time al.twake tcnt }) t.sleep_list t.next_tick
        t.mtcmp a)
]

-- Where an alarm goes in a list: behind those that wake before it, and before the others.
pub record IsInserted (al : Alarm) (old new : List Alarm) : Type 0 where
  pub before : List Alarm
  pub after : List Alarm
  pub split : old ≡ before ++ after
  pub joined : new ≡ before ++ (al ∷ after)
  pub earlier : AllBefore al.twake before
  pub later : AllFrom al.twake after

insert_behind_lem :
    (al : Alarm) (xs : List Alarm) → IsSorted xs → IsInserted al xs (insert_behind al xs)
unfolding insert_behind
insert_behind_lem al [] s = record {
  before = [];
  after = [];
  split = refl;
  joined = refl;
  earlier = tt;
  later = tt;
}
insert_behind_lem al (x ∷ xs) s = elim (Bool-cases (leb al.twake x.twake)) [
  | inl first ↦
      let le : al.twake ≤ x.twake = ground arith in
      rw first (record {
        before = [];
        after = x ∷ xs;
        split = refl;
        joined = refl;
        earlier = tt;
        later = (le, AllFrom-mono al.twake x.twake xs le s.0);
      })
  | inr behind ↦
      let lt : x.twake < al.twake = ground arith in
      let i = insert_behind_lem al xs s.1 in
      rw behind (record {
        before = x ∷ i.before;
        after = i.after;
        split = ap (λ l. x ∷ l) i.split;
        joined = ap (λ l. x ∷ l) i.joined;
        earlier = (lt, i.earlier);
        later = i.later;
      })
]

insert_alarm_list :
    (al : Alarm) (xs : List Alarm) (tick cmp : ℕ)
    → (insert_alarm al (record { sleep_list = xs; next_tick = tick; mtcmp = cmp })).sleep_list
      ≡ insert_behind al xs
unfolding insert_alarm insert_behind
insert_alarm_list al [] tick cmp = refl
insert_alarm_list al (x ∷ xs) tick cmp = ground arith

-- The sum of the two times, at most the largest number of 64 bits.
wake_time_lem :
    (twake tcnt : ℕ) → twake ≤ uint64_max → wake_time twake tcnt ≡ min (twake + tcnt) uint64_max
unfolding wake_time
wake_time_lem twake tcnt le = ground arith

-- Where the list of sleeping alarms is sorted and the timer's comparator is not later than any of
-- them nor than the next tick, this is so after `alarm_sleep`. The alarm's wake-up time, a number of 64
-- bits, is moved on by `tcnt`, at most to 2^64 - 1. Where the new time is `now` or later, the caller waits,
-- the alarm stands behind exactly those that wake before it and the others are as before, in their order;
-- where it is before `now`, the caller does not wait and the timer is as before.
pub alarm_sleep_lem :
    (now tcnt : ℕ) (al : Alarm) (t : Timer)
    → al.twake ≤ uint64_max
    → IsArmed t
    → let wake = min (al.twake + tcnt) uint64_max in
      let al' : Alarm = record al { twake = wake } in
      let r = alarm_sleep now al tcnt t in
      IsArmed r.0
      × (r.1 ≡ al')
      × (now ≤ wake → (r.2 ≡ true) × IsInserted al' t.sleep_list r.0.sleep_list)
      × (wake < now → (r.2 ≡ false) × (r.0 ≡ t))
unfolding alarm_sleep
alarm_sleep_lem now tcnt al t le a =
    let al' : Alarm = record al { twake = wake_time al.twake tcnt } in
    let time = wake_time_lem al.twake tcnt le in
    let same : ◌≡◌ {A = Alarm} al' (record al { twake = min (al.twake + tcnt) uint64_max }) =
      ap (λ (w : ℕ). record al { twake = w }) time in
    (
      alarm_sleep-IsArmed now tcnt al t a,
      elim (Bool-cases (ltb (wake_time al.twake tcnt) now)) [
        | inl over ↦ rw over same
        | inr waits ↦ rw waits same
      ],
      λ lo.
          let waits : ltb (wake_time al.twake tcnt) now ≡ false = ground (arith, time, lo) in
          rw (waits, insert_alarm_list al' t.sleep_list t.next_tick t.mtcmp)
            (refl, rw (sym time) (insert_behind_lem al' t.sleep_list a.sorted)),
      λ hi.
          let over : ltb (wake_time al.twake tcnt) now ≡ true = ground (arith, time, hi) in
          rw over (refl, refl),
    )
