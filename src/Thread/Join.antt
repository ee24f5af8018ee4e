-- ===== src/Thread/Join.antt =====
-- src/kern/thread.c: threads that exit and parents that wait for them.
use illinux.Prelude.{
  ℕ, ◌<◌, ◌≡◌, ◌≢◌, refl, sym, ap, ◌∙◌, subst, true, false, some, List, [], ◌∷◌, ◌++◌, length, leb,
  ◌==◌, ◌||◌, arith, inl, inr, Bool-cases,
}
use illinux.Cmd.{done, pure, then_done}
use illinux.Mem.{store, store_same, store_other}
use illinux.Thread.{
  ThreadState, waiting, running, ready, exited, is_state, nthr, Sched, suspend_self, condition_wait,
  condition_broadcast,
}
use illinux.Thread.Queues.{Queues, SameTable, SameTable-trans, apart, outside}
use illinux.Thread.Switch.{suspend_self-off}
use illinux.Thread.Broadcast.{condition_broadcast-Queues}
use illinux.Thread.Schedule.{
  schedule, IsSchedule, current_runs, only, ran_before, condition_wait-IsSchedule,
}
use illinux.Thread.Table.{is_thread, thread_exit, join_round, thread_join, waits}

-- The queues are as before where the running thread leaves the running state.
left-Queues :
    (s : Sched) (p : ℕ) (a : ThreadState) (r : List ℕ) (w : ℕ → List ℕ)
    → Queues s r w
    → s.state p ≡ running
    → Queues (record s { state = store s.state p a }) r w
left-Queues s p a r w q run = record {
  ready_queue = q.ready_queue;
  wait_queue = q.wait_queue;
  ready_state = λ x i.
      store_other s.state p a x
        (apart s.state x p ready running (q.ready_state x i) run (omega arith))
      ∙ q.ready_state x i;
  wait_state = λ c x i.
      store_other s.state p a x
        (apart s.state x p waiting running (q.wait_state c x i) run (omega arith))
      ∙ q.wait_state c x i;
  wait_for = q.wait_for;
}

thread_exit_suspends :
    (main_thread fuel q : ℕ) (s s2 : Sched)
    → s.current ≢ main_thread
    → s.parent s.current ≡ some q
    → condition_broadcast fuel
        (s.child_exit q)
        (record s { state = store s.state s.current exited })
      ≡ done tt s2
    → thread_exit main_thread fuel s ≡ suspend_self s2
unfolding thread_exit
thread_exit_suspends main_thread fuel q s s2 ne par e =
    let other : (s.current == main_thread) ≡ false = ground arith in
    rw (thread_exit, other, par)
      (then_done (condition_broadcast fuel (s.child_exit q)) (λ _. suspend_self) e)

-- A thread other than the main one that exits makes the threads ready that wait for a child of its
-- parent to exit, and gives the processor to the first that is ready then; no assertion fails.
pub thread_exit-IsSchedule :
    (main_thread fuel : ℕ) (s : Sched) (t q p : ℕ) (r r' : List ℕ) (w : ℕ → List ℕ)
    → IsSchedule s (schedule t r w)
    → t ≢ main_thread
    → s.parent t ≡ some q
    → length (w (s.child_exit q)) < fuel
    → r ++ w (s.child_exit q) ≡ p ∷ r'
    → (s' : Sched) × (thread_exit main_thread fuel s ≡ done tt s')
      × IsSchedule s' (schedule p r' (store w (s.child_exit q) []))
      × (s'.state t ≡ exited)
      × SameTable s s'
thread_exit-IsSchedule main_thread fuel s t q p r r' w i ne par lt split =
    let cur = s.current in
    let c = s.child_exit q in
    let on = current_runs s (schedule t r w) i in
    let s1 = record s { state = store s.state cur exited } in
    let at_cur : s1.state cur ≡ exited = store_same s.state cur exited cur refl in
    let (s2, woken, did) =
      condition_broadcast-Queues fuel c s1 r w (left-Queues s cur exited r w i.queues on) lt in
    let q2 = subst (λ l. Queues s2 l (store w c [])) split did.queues in
    let out = outside s.state waiting running (w c) cur (i.queues.wait_state c) on (omega arith) in
    let gone : s2.state cur ≡ exited = did.same_state cur out ∙ at_cur in
    let is_r = q2.ready_state p (ground arith) in
    let ne_p : cur ≢ p = apart s2.state cur p exited ready gone is_r (omega arith) in
    let off : s2.state s2.current ≡ exited = ap s2.state did.same_current ∙ gone in
    let (s', e, q', at_p, st, fixed) =
      suspend_self-off s2 p r' (store w c []) q2 (rw off refl)
        (λ h. ne_p (sym did.same_current ∙ h)) in
    let after : s'.state cur ≡ exited =
      ap (λ f. f cur) st ∙ store_other s2.state p running cur ne_p ∙ gone in
    let none_runs : (y : ℕ) → s2.state y ≡ running → y ≡ cur = λ y h. elim (Bool-cases (cur == y)) [
      | inl e ↦ ground (arith, e)
      | inr e ↦
          let was = ran_before s1 s2 c y r w did h in
          i.alone y (sym (store_other s.state cur exited y (λ eq. ground (arith, e, eq))) ∙ was)
          ∙ sym i.current
    ] in
    (
      s',
      thread_exit_suspends main_thread fuel q s s2 (λ h. ne (sym i.current ∙ h))
            (ap s.parent i.current ∙ par) woken
          ∙ e,
      record {
        queues = q';
        current = at_p;
        runs = ap (λ f. f p) st ∙ store_same s2.state p running p refl;
        alone = λ x h.
            only s2.state s'.state cur p x none_runs exited after (omega arith)
              (λ y nt np. ap (λ f. f y) st ∙ store_other s2.state p running y np) h;
      },
      ap s'.state (sym i.current) ∙ after,
      SameTable-trans s s2 s'
          (record {
            thrtab = did.same_table.thrtab;
            parent = did.same_table.parent;
            child_exit = did.same_table.child_exit;
          })
          fixed,
    )

pub thread_join_child :
    (tid p : ℕ) (s : Sched)
    → tid ≢ 0
    → tid < nthr
    → s.thrtab tid ≡ some p
    → s.parent p ≡ some s.current
    → thread_join tid s ≡ join_round tid p s
unfolding thread_join
thread_join_child tid p s nz lt slot par =
    let out : ((tid == 0) || leb nthr tid) ≡ false = ground arith in
    let same : (s.current == s.current) ≡ true = ground arith in
    let is_p : is_thread (s.parent p) s.current ≡ true = rw par same in
    rw (thread_join, out, slot, is_p) refl

join_round_waits :
    (tid p : ℕ) (s s1 : Sched)
    → is_state (s.state p) exited ≡ false
    → condition_wait (s.child_exit s.current) s ≡ done tt s1
    → join_round tid p s ≡ done waits s1
unfolding join_round
join_round_waits tid p s s1 off e =
    rw (join_round, off) (then_done (condition_wait (s.child_exit s.current)) (λ _. pure waits) e)

-- A parent that joins a child that is the next ready thread waits; when the child then exits, the parent
-- is in the schedule behind the threads that were ready and those that waited with it, and it finds
-- the child in the table, exited.
pub join_exit_wakes :
    (main_thread fuel tid : ℕ) (s : Sched) (t p n : ℕ) (r r' : List ℕ) (w : ℕ → List ℕ)
    → IsSchedule s (schedule t (p ∷ r) w)
    → tid ≢ 0
    → tid < nthr
    → s.thrtab tid ≡ some p
    → s.parent p ≡ some t
    → p ≢ main_thread
    → length (w (s.child_exit t) ++ (t ∷ [])) < fuel
    → r ++ (w (s.child_exit t) ++ (t ∷ [])) ≡ n ∷ r'
    → (s1 s2 : Sched) × (thread_join tid s ≡ done waits s1)
      × (thread_exit main_thread fuel s1 ≡ done tt s2)
      × IsSchedule s2 (
          schedule n r'
            (store (store w (s.child_exit t) (w (s.child_exit t) ++ (t ∷ []))) (s.child_exit t) []))
      × (s2.state p ≡ exited)
      × (s2.thrtab tid ≡ some p)
join_exit_wakes main_thread fuel tid s t p n r r' w i nz lt slot par ne more split =
    let c = s.child_exit t in
    let w1 = store w c (w c ++ (t ∷ [])) in
    let at_c : w1 c ≡ w c ++ (t ∷ []) = store_same w c (w c ++ (t ∷ [])) c refl in
    let (s1, waits1, i1, fixed1) = condition_wait-IsSchedule s t p c r w i in
    let is_c : s1.child_exit t ≡ c = ap (λ f. f t) fixed1.child_exit in
    let at_c1 : w1 (s1.child_exit t) ≡ w c ++ (t ∷ []) = ap w1 is_c ∙ at_c in
    let is_r : is_state (s.state p) exited ≡ false =
      rw (i.queues.ready_state p (ground arith)) refl in
    let (s2, e2, i2, gone, fixed2) =
      thread_exit-IsSchedule main_thread fuel s1 p t n r r' w1 i1 ne
        (ap (λ f. f p) fixed1.parent ∙ par) (subst (λ l. length l < fuel) (sym at_c1) more)
        (ap (λ l. r ++ l) at_c1 ∙ split) in
    (
      s1,
      s2,
      thread_join_child tid p s nz lt slot (par ∙ ap some (sym i.current))
          ∙ join_round_waits tid p s s1 is_r
              (ap (λ x. condition_wait (s.child_exit x) s) i.current ∙ waits1),
      e2,
      subst (λ x. IsSchedule s2 (schedule n r' (store w1 x []))) is_c i2,
      gone,
      ap (λ f. f tid) fixed2.thrtab ∙ ap (λ f. f tid) fixed1.thrtab ∙ slot,
    )
