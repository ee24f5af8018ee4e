-- ===== src/Thread/Table.antt =====
-- src/kern/thread.c: the table of threads: their creation, their exit, and the parent that waits for it.
use illinux.Prelude.{
  ℕ, zero, suc, ◌+◌, not, ◌||◌, Bool, true, false, Option, none, some, leb, ltb, ◌&&◌, ◌==◌,
  if◌then◌else◌,
}
use illinux.Cmd.{Cmd, panic, pure, get, modify, ◌>>=◌, ◌>>◌}
use illinux.Mem.{store}
use illinux.Thread.{
  ready, exited, is_state, nthr, Sched, assert, set_thread_state, insert_ready, suspend_self,
  thread_yield, condition_wait, condition_broadcast,
}

abbrev pub is_null : Option ℕ → Bool
is_null none = true
is_null (some p) = false

abbrev pub is_thread : Option ℕ → ℕ → Bool
is_thread none t = false
is_thread (some p) t = p == t

abbrev pub in_table : ℕ → Bool
in_table tid = ltb 0 tid && ltb tid nthr

-- The loop that looks for a free slot, with the number of slots that are left; `nthr` where none is free.
unfoldable pub free_slot : ℕ → (ℕ → Option ℕ) → ℕ → ℕ
free_slot zero thrtab tid = tid
free_slot (suc n) thrtab tid =
    let rest = free_slot n thrtab (tid + 1) in if is_null (thrtab tid) then tid else rest

-- `kmalloc` has given the address `child`. The name, the stack and the context are left out.
unfoldable pub create_thread : ℕ → Option ℕ → Cmd Sched ℕ
create_thread child proc = do
  s ← get
  let tid = free_slot 15 s.thrtab 1
  assert (not (tid == nthr))
  modify λ s. record s {
    thrtab = store s.thrtab tid (some child);
    id = store s.id child tid;
    parent = store s.parent child (some s.current);
    proc = store s.proc child proc;
  }
  set_thread_state child ready
  pure tid

unfoldable pub thread_spawn : ℕ → Cmd Sched ℕ
thread_spawn child = do
  s ← get
  tid ← create_thread child (s.proc s.current)
  insert_ready child
  pure tid

-- The caller yields. The result here is the `tid` that goes into the child's process; the code returns that
-- process's number.
unfoldable pub thread_fork_to_user : ℕ → ℕ → Cmd Sched ℕ
thread_fork_to_user child child_proc = do
  tid ← create_thread child (some child_proc)
  insert_ready child
  thread_yield
  pure tid

-- `halt_success` does not return.
unfoldable pub thread_exit : ℕ → ℕ → Cmd Sched (Unit {0})
thread_exit main_thread fuel = do
  s ← get
  if s.current == main_thread then (λ _. panic) else do
    set_thread_state s.current exited
    elim (s.parent s.current) [
      | none ↦ λ _. panic
      | some parent ↦ condition_broadcast fuel (s.child_exit parent) >> suspend_self
    ]

-- The loop of `recycle_thread`: the threads from `ctid` on whose parent is `thr` get its parent.
unfoldable pub reparent : ℕ → (ℕ → Option ℕ) → ℕ → ℕ → (ℕ → Option ℕ) → ℕ → Option ℕ
reparent zero thrtab thr ctid parent = parent
reparent (suc n) thrtab thr ctid parent = reparent n thrtab thr (ctid + 1) (elim (thrtab ctid) [
  | none ↦ parent
  | some c ↦ if is_thread (parent c) thr then store parent c (parent thr) else parent
])

unfoldable pub recycle_thread : ℕ → Cmd Sched (Unit {0})
recycle_thread tid = do
  s ← get
  elim (s.thrtab tid) [
    | none ↦ λ _. panic
    | some thr ↦ do
      assert (in_table tid)
      assert (is_state (s.state thr) exited)
      modify λ s. record s {
        parent = reparent 15 s.thrtab thr 1 s.parent;
        thrtab = store s.thrtab tid none;
      }
  ]

-- A join ends with -1 or with the thread, or the caller has to wait and goes on at the loop later.
pub data Joined : Type 0 where
  not_child waits : Joined
  joined : ℕ → Joined

-- One round of the loop of `thread_join`.
unfoldable pub join_round : ℕ → ℕ → Cmd Sched Joined
join_round tid child = do
  s ← get
  if is_state (s.state child) exited
      then (do recycle_thread tid; pure (joined tid))
      else (do condition_wait (s.child_exit s.current); pure waits)

unfoldable pub thread_join : ℕ → Cmd Sched Joined
thread_join tid = do
  s ← get
  if (tid == 0) || leb nthr tid then pure not_child else elim (s.thrtab tid) [
    | none ↦ pure not_child
    | some child ↦
        if is_thread (s.parent child) s.current then join_round tid child else pure not_child
  ]

-- The first loop of `thread_join_any`: the first child that has exited, and the number of children that
-- have been counted before it.
unfoldable pub scan_children : ℕ → Sched → ℕ → Option ℕ × ℕ
scan_children zero s tid = (none, 0)
scan_children (suc n) s tid =
    let rest = scan_children n s (tid + 1) in
    elim (s.thrtab tid) [
      | none ↦ rest
      | some c ↦
          if is_thread (s.parent c) s.current
          then (if is_state (s.state c) exited then (some tid, 0) else (rest.0, rest.1 + 1))
          else rest
    ]

unfoldable pub thread_join_any : Cmd Sched Joined
thread_join_any = do
  s ← get
  elim (scan_children 15 s 1).0 [
    | some tid ↦ thread_join tid
    | none ↦
        if (scan_children 15 s 1).1 == 0
        then (λ _. panic)
        else do condition_wait (s.child_exit s.current); pure waits
  ]

-- `thread_join_any` after its wait.
unfoldable pub join_any_woken : Cmd Sched Joined
join_any_woken = do
  s ← get
  elim (scan_children 15 s 1).0 [
    | none ↦ λ _. panic
    | some tid ↦ do recycle_thread tid; pure (joined tid)
  ]
