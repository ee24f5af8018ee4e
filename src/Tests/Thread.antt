-- ===== src/Tests/Thread.antt =====
-- src/kern/thread.c: the theorems on threads at concrete inputs.
use illinux.Prelude.{
  ℕ, ◌+◌, ◌≡◌, refl, true, Option, none, some, [], ◌∷◌, ◌++◌, ◌==◌, if◌then◌else◌, arith,
}
use illinux.Cmd.{done}
use illinux.Mem.{store}
use illinux.Thread.{
  ThreadState, uninitialized, running, ready, exited, Sched, thread_yield, condition_wait,
  condition_broadcast,
}
use illinux.Thread.Lists.{tlclear}
use illinux.Thread.Queue.{has}
use illinux.Thread.Queues.{SameTable}
use illinux.Thread.Schedule.{
  schedule, IsSchedule, thread_yield-IsSchedule, condition_wait-IsSchedule,
  condition_broadcast-IsSchedule,
}
use illinux.Thread.Join.{join_exit_wakes}
use illinux.Thread.Recycle.{in_slots, adopt, join_round-exited}
use illinux.Thread.Spawn.{IsSpawned, thread_spawn-IsSchedule}
use illinux.Thread.Table.{
  free_slot, thread_spawn, thread_exit, thread_join, join_round, joined, waits,
}

-- The main thread 100 runs; its child 101 and the idle thread 115 are ready.
abbrev states : ℕ → ThreadState
states p =
    if p == 100
    then running
    else if p == 101
    then ready
    else if p == 115
    then ready
    else uninitialized

abbrev links : ℕ → Option ℕ
links p = if p == 101 then some 115 else none

abbrev two : Sched
two = record {
  state = states;
  list_next = links;
  wait_cond = λ p. none;
  parent = λ p. if p == 101 then some 100 else if p == 115 then some 100 else none;
  child_exit = λ p. p + 1000;
  thrtab = λ k.
      if k == 0 then some 100 else if k == 1 then some 101 else if k == 15 then some 115 else none;
  id = λ p. 0;
  proc = λ p. none;
  ready_list = record { head = some 101; tail = some 115 };
  wait_list = λ c. tlclear;
  current = 100;
}

ready_member : (p : ℕ) → has p (101 ∷ 115 ∷ []) ≡ true → states p ≡ ready
ready_member p i = ground arith

running_member : (p : ℕ) → states p ≡ running → p ≡ 100
running_member p h = ground arith

two-IsSchedule : IsSchedule two (schedule 100 (101 ∷ 115 ∷ []) (λ c. []))
two-IsSchedule = record {
  queues = record {
    ready_queue = record {
      chain = (refl, (refl, refl));
      end = refl;
      distinct = (refl, (refl, tt));
    };
    wait_queue = λ c. record { chain = refl; end = refl; distinct = tt };
    ready_state = λ p i. ready_member p i;
    wait_state = λ c p i. absurd (ground (arith, i));
    wait_for = λ c p i. absurd (ground (arith, i));
  };
  current = refl;
  runs = refl;
  alone = λ p h. running_member p h;
}

thread_yield-IsSchedule_example :
    (s' : Sched) × (thread_yield two ≡ done tt s')
    × IsSchedule s' (schedule 101 (115 ∷ 100 ∷ []) (λ c. []))
thread_yield-IsSchedule_example =
    thread_yield-IsSchedule two 100 101 (115 ∷ []) (λ c. []) two-IsSchedule

condition_wait-IsSchedule_example :
    (s' : Sched) × (condition_wait 7 two ≡ done tt s')
    × IsSchedule s' (schedule 101 (115 ∷ []) (store (λ c. []) 7 (100 ∷ [])))
    × SameTable two s'
condition_wait-IsSchedule_example =
    condition_wait-IsSchedule two 100 101 7 (115 ∷ []) (λ c. []) two-IsSchedule

condition_broadcast-IsSchedule_example :
    (s' : Sched) × (condition_broadcast 16 7 two ≡ done tt s')
    × IsSchedule s' (schedule 100 (101 ∷ 115 ∷ []) (store (λ c. []) 7 []))
condition_broadcast-IsSchedule_example =
    condition_broadcast-IsSchedule 16 7 two 100 (101 ∷ 115 ∷ []) (λ c. []) two-IsSchedule
      (omega arith)

join_exit_wakes_example :
    (s1 s2 : Sched) × (thread_join 1 two ≡ done waits s1)
    × (thread_exit 100 16 s1 ≡ done tt s2)
    × IsSchedule s2
        (schedule 115 (100 ∷ []) (store (store (λ c. []) 1100 ([] ++ (100 ∷ []))) 1100 []))
    × (s2.state 101 ≡ exited)
    × (s2.thrtab 1 ≡ some 101)
join_exit_wakes_example =
    join_exit_wakes 100 16 1 two 100 101 115 (115 ∷ []) (100 ∷ []) (λ c. []) two-IsSchedule
      (λ e. omega (arith, e)) (omega arith) refl refl (λ e. omega (arith, e)) (omega arith) refl

-- The child has exited.
abbrev after_exit : Sched
after_exit = record two { state = store states 101 exited }

join_round-exited_example :
    (s' : Sched) × (join_round 1 101 after_exit ≡ done (joined 1) s')
    × (s'.thrtab ≡ store two.thrtab 1 none)
    × ((x : ℕ) → s'.parent x ≡ adopt (in_slots 15 two.thrtab 1 x) (two.parent x) (some 100) 101)
    × (s'.state ≡ after_exit.state)
join_round-exited_example = join_round-exited 1 101 after_exit refl refl refl refl

thread_spawn-IsSchedule_example :
    (s' : Sched) × (thread_spawn 102 two ≡ done 2 s')
    × IsSchedule s' (schedule 100 (101 ∷ 115 ∷ 102 ∷ []) (λ c. []))
    × IsSpawned two 102 2 s'
unfolding free_slot
thread_spawn-IsSchedule_example =
    thread_spawn-IsSchedule 102 two 100 (101 ∷ 115 ∷ []) (λ c. []) two-IsSchedule
      (λ e. omega (arith, e)) refl (λ c. refl) (omega arith)
