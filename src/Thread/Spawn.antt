-- ===== src/Thread/Spawn.antt =====
-- src/kern/thread.c: the creation of threads.
use illinux.Prelude.{
  ℕ, ◌≤◌, ◌<◌, ◌≡◌, ◌≢◌, refl, sym, ap, ◌∙◌, true, false, Option, none, some, List, [], ◌∷◌, ◌++◌,
  ltb, ◌==◌, arith, inl, inr, Bool-cases,
}
use illinux.Cmd.{done, panic, pure, then_done, then_panic, ◌>>◌}
use illinux.Mem.{store, store_same, store_other}
use illinux.Thread.{ready, state_num, nthr, Sched, insert_ready, thread_yield}
use illinux.Thread.Queue.{has}
use illinux.Thread.Queues.{Queues}
use illinux.Thread.Steps.{insert_ready-Queues}
use illinux.Thread.Schedule.{schedule, IsSchedule}
use illinux.Thread.Join.{thread_join_child}
use illinux.Thread.Recycle.{free_slot_lem}
use illinux.Thread.Table.{
  is_null, free_slot, create_thread, thread_spawn, thread_fork_to_user, thread_join, join_round,
}

-- A new thread in its slot.
abbrev made : ℕ → ℕ → Option ℕ → Sched → Sched
made child tid pr s = record s {
  thrtab = store s.thrtab tid (some child);
  id = store s.id child tid;
  parent = store s.parent child (some s.current);
  proc = store s.proc child pr;
}

create_thread_lem :
    (child tid : ℕ) (pr : Option ℕ) (s : Sched)
    → free_slot 15 s.thrtab 1 ≡ tid
    → (tid == nthr) ≡ false
    → let s0 = made child tid pr s in
      create_thread child pr s ≡ done tid (record s0 { state = store s.state child ready })
unfolding create_thread
create_thread_lem child tid pr s e ok = rw (create_thread, e, ok) refl

thread_spawn_inserts :
    (child tid : ℕ) (s s1 s2 : Sched)
    → create_thread child (s.proc s.current) s ≡ done tid s1
    → insert_ready child s1 ≡ done tt s2
    → thread_spawn child s ≡ done tid s2
unfolding thread_spawn
thread_spawn_inserts child tid s s1 s2 made put =
    then_done (create_thread child (s.proc s.current)) (λ n. insert_ready child >> pure n) made
    ∙ then_done (insert_ready child) (λ _. pure tid) put

-- What `thread_spawn` has done where the slot `tid` was the first free one.
pub record IsSpawned (s : Sched) (child tid : ℕ) (s' : Sched) : Type 0 where
  pub free : s.thrtab tid ≡ none
  pub least : (k : ℕ) → 1 ≤ k → k < tid → is_null (s.thrtab k) ≡ false
  pub slot : s'.thrtab ≡ store s.thrtab tid (some child)
  pub parent : s'.parent child ≡ some s.current
  pub found : thread_join tid s' ≡ join_round tid child s'

is_null_lem : (o : Option ℕ) → is_null o ≡ true → o ≡ none
is_null_lem none e = refl
is_null_lem (some p) e = absurd (ground (arith, e))

-- Where a slot is free and the new thread is neither running nor in a queue, `thread_spawn` finds no failing
-- assertion, takes the first free slot of 1 to 15 for the thread, makes it the last of the ready
-- ones, and leaves the other threads of the schedule where they are; the caller can join it.
pub thread_spawn-IsSchedule :
    (child : ℕ) (s : Sched) (t : ℕ) (r : List ℕ) (w : ℕ → List ℕ)
    → IsSchedule s (schedule t r w)
    → child ≢ t
    → has child r ≡ false
    → ((c : ℕ) → has child (w c) ≡ false)
    → free_slot 15 s.thrtab 1 < nthr
    → let tid = free_slot 15 s.thrtab 1 in
      (s' : Sched) × (thread_spawn child s ≡ done tid s')
      × IsSchedule s' (schedule t (r ++ (child ∷ [])) w)
      × IsSpawned s child tid s'
thread_spawn-IsSchedule child s t r w i ne out off room =
    let tid = free_slot 15 s.thrtab 1 in
    let (from, to, before, free) = free_slot_lem 15 s.thrtab 1 in
    let ok : (tid == nthr) ≡ false = ground (arith, room) in
    let s0 = made child tid (s.proc s.current) s in
    let q0 : Queues s0 r w = record {
      ready_queue = i.queues.ready_queue;
      wait_queue = i.queues.wait_queue;
      ready_state = i.queues.ready_state;
      wait_state = i.queues.wait_state;
      wait_for = i.queues.wait_for;
    } in
    let (n, l, put, q') = insert_ready-Queues s0 child r w q0 out off in
    let s1 = record s0 { state = store s.state child ready } in
    let s' = record s1 { list_next = n; ready_list = l } in
    let is_made = create_thread_lem child tid (s.proc s.current) s refl ok in
    (
      s',
      thread_spawn_inserts child tid s s1 s' is_made put,
      record {
        queues = record {
          ready_queue = q'.ready_queue;
          wait_queue = q'.wait_queue;
          ready_state = q'.ready_state;
          wait_state = q'.wait_state;
          wait_for = q'.wait_for;
        };
        current = i.current;
        runs = store_other s.state child ready t (λ e. ne (sym e)) ∙ i.runs;
        alone = λ x h. elim (Bool-cases (child == x)) [
          | inl e ↦
              let at_x = store_same s.state child ready x (ground (arith, e)) in
              absurd (ground (arith, ap state_num (sym at_x ∙ h)))
          | inr e ↦
              i.alone x (sym (store_other s.state child ready x (λ eq. ground (arith, e, eq))) ∙ h)
        ];
      },
      record {
        free = is_null_lem (s.thrtab tid) (free (omega (arith, room)));
        least = before;
        slot = refl;
        parent = store_same s.parent child (some s.current) child refl;
        found =
            thread_join_child tid child s' (λ e. omega (arith, e, from)) room
              (store_same s.thrtab tid (some child) tid refl)
              (store_same s.parent child (some s.current) child refl);
      },
    )

create_thread_full :
    (child : ℕ) (pr : Option ℕ) (s : Sched)
    → free_slot 15 s.thrtab 1 ≡ nthr
    → create_thread child pr s ≡ panic
unfolding create_thread
create_thread_full child pr s e = rw (create_thread, e) refl

no_slot :
    (thrtab : ℕ → Option ℕ)
    → ((k : ℕ) → 1 ≤ k → k < nthr → is_null (thrtab k) ≡ false)
    → free_slot 15 thrtab 1 ≡ nthr
no_slot thrtab all =
    let (from, to, before, free) = free_slot_lem 15 thrtab 1 in
    elim (Bool-cases (ltb (free_slot 15 thrtab 1) nthr)) [
      | inl lt ↦
          let room : free_slot 15 thrtab 1 < nthr = ground (arith, lt) in
          let clash : true ≡ false =
            sym (free (omega (arith, room))) ∙ all (free_slot 15 thrtab 1) from room in
          absurd (ground (arith, clash))
      | inr ge ↦ ground (arith, ge, to)
    ]

-- Where each slot from 1 to 15 is taken, neither `thread_spawn` nor `thread_fork_to_user` returns: the
-- kernel panics.
pub thread_spawn_full :
    (child child_proc : ℕ) (s : Sched)
    → ((k : ℕ) → 1 ≤ k → k < nthr → is_null (s.thrtab k) ≡ false)
    → (thread_spawn child s ≡ panic) × (thread_fork_to_user child child_proc s ≡ panic)
unfolding thread_spawn thread_fork_to_user
thread_spawn_full child child_proc s all =
    let full = no_slot s.thrtab all in
    let e1 = create_thread_full child (s.proc s.current) s full in
    let e2 = create_thread_full child (some child_proc) s full in
    (
      then_panic (create_thread child (s.proc s.current)) (λ tid. insert_ready child >> pure tid)
          e1,
      then_panic (create_thread child (some child_proc))
          (λ tid. insert_ready child >> (thread_yield >> pure tid)) e2,
    )
