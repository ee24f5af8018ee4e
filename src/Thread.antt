-- ===== src/Thread.antt =====
-- src/kern/thread.c: threads, condition variables and the scheduler. Interrupts are off where the lists
-- are changed; a call that gives up the processor ends with another thread as the current one.
pub mod Lists
pub mod Queue
pub mod QueueOps
pub mod Queues
pub mod Steps
pub mod Broadcast
pub mod Switch
pub mod Schedule
pub mod Table
pub mod Join
pub mod Recycle
pub mod Spawn
use illinux.Prelude.{
  ℕ, zero, suc, ◌+◌, Bool, true, false, not, Option, none, some, leb, ltb, ◌==◌, if◌then◌else◌,
}
use illinux.Cmd.{Cmd, done, panic, blocked, timeout, pure, get, modify, ◌>>=◌, ◌>>◌}
use illinux.Mem.{store}
use illinux.Thread.Lists.{Links, ThreadList, tlclear, tlempty, tlinsert, tlremove, tlappend}

-- `enum thread_state`
pub data ThreadState : Type 0 where
  uninitialized stopped waiting running ready exited : ThreadState

abbrev pub state_num : ThreadState → ℕ
state_num uninitialized = 0
state_num stopped = 1
state_num waiting = 2
state_num running = 3
state_num ready = 4
state_num exited = 5

abbrev pub is_state : ThreadState → ThreadState → Bool
is_state a b = state_num a == state_num b

abbrev pub nthr : ℕ
nthr = 16

-- The members of each `struct thread`, by the thread's address, and the static variables. `current` is
-- the thread pointer; a condition variable is its address, and `child_exit` gives that of a thread's.
pub record Sched : Type 0 where
  pub state : ℕ → ThreadState
  pub list_next : Links
  pub wait_cond : ℕ → Option ℕ
  pub parent : ℕ → Option ℕ
  pub child_exit : ℕ → ℕ
  pub thrtab : ℕ → Option ℕ
  pub id : ℕ → ℕ
  pub proc : ℕ → Option ℕ
  pub ready_list : ThreadList
  pub wait_list : ℕ → ThreadList
  pub current : ℕ

abbrev pub assert : Bool → Cmd Sched (Unit {0})
assert b s = if b then done tt s else panic

abbrev pub set_thread_state : ℕ → ThreadState → Cmd Sched (Unit {0})
set_thread_state thr st = modify λ s. record s { state = store s.state thr st }

unfoldable pub insert_ready : ℕ → Cmd Sched (Unit {0})
insert_ready thr s = elim (tlinsert s.list_next s.ready_list thr) [
  | none ↦ panic
  | some r ↦ done tt (record s { list_next = r.0; ready_list = r.1 })
]

unfoldable pub insert_waiting : ℕ → ℕ → Cmd Sched (Unit {0})
insert_waiting cond thr s = elim (tlinsert s.list_next (s.wait_list cond) thr) [
  | none ↦ panic
  | some r ↦ done tt (record s { list_next = r.0; wait_list = store s.wait_list cond r.1 })
]

-- The next thread, taken from the list; panic where its pointer is NULL.
unfoldable pub remove_ready : Cmd Sched ℕ
remove_ready s =
    let r = tlremove s.list_next s.ready_list in
    elim r.2 [ none ↦ panic | some thr ↦ done thr (record s { list_next = r.0; ready_list = r.1 }) ]

-- The next thread is marked running; the suspended one, where it is still running, is ready again and goes
-- to the end of the list.
unfoldable pub resume : ℕ → ℕ → Cmd Sched (Unit {0})
resume susp_thread next_thread = do
  s ← get
  assert (is_state (s.state next_thread) ready)
  set_thread_state next_thread running
  s ← get
  if is_state (s.state susp_thread) running
      then (do set_thread_state susp_thread ready; insert_ready susp_thread)
      else pure tt
  modify λ s. record s { current = next_thread }

-- `suspend_self` up to the switch; the stack of a thread that has exited is given back by the thread
-- that is resumed.
unfoldable pub suspend_self : Cmd Sched (Unit {0})
suspend_self = do
  s ← get
  assert (not (tlempty s.ready_list))
  next_thread ← remove_ready
  resume s.current next_thread

unfoldable pub thread_yield : Cmd Sched (Unit {0})
thread_yield = do s ← get; assert (is_state (s.state s.current) running); suspend_self

unfoldable pub condition_wait : ℕ → Cmd Sched (Unit {0})
condition_wait cond = do
  s ← get
  let cur = s.current
  assert (is_state (s.state cur) running)
  set_thread_state cur waiting
  modify λ s. record s {
    wait_cond = store s.wait_cond cur (some cond);
    list_next = store s.list_next cur none;
  }
  insert_waiting cond cur
  suspend_self

abbrev pub is_cond : Option ℕ → ℕ → Bool
is_cond none cond = false
is_cond (some c) cond = c == cond

-- The loop of `condition_broadcast` on fuel.
unfoldable pub mark_ready : ℕ → ℕ → Option ℕ → Cmd Sched (Unit {0})
mark_ready zero cond thr = λ s. timeout
mark_ready (suc fuel) cond none = pure tt
mark_ready (suc fuel) cond (some thr) = do
  s ← get
  assert (is_state (s.state thr) waiting)
  assert (is_cond (s.wait_cond thr) cond)
  set_thread_state thr ready
  modify λ s. record s { wait_cond = store s.wait_cond thr none }
  s ← get
  mark_ready fuel cond (s.list_next thr)

unfoldable pub append_waiting : ℕ → Cmd Sched (Unit {0})
append_waiting cond s = elim (tlappend s.list_next s.ready_list (s.wait_list cond)) [
  | none ↦ panic
  | some r ↦
      done tt
        (record s { list_next = r.0; ready_list = r.1; wait_list = store s.wait_list cond tlclear })
]

-- The list has at most `nthr` threads.
unfoldable pub condition_broadcast : ℕ → ℕ → Cmd Sched (Unit {0})
condition_broadcast fuel cond = do
  s ← get
  if tlempty (s.wait_list cond)
      then pure tt
      else do mark_ready fuel cond (s.wait_list cond).head; append_waiting cond
