-- ===== src/Thread/Switch.antt =====
-- src/kern/thread.c: what `suspend_self` does to the queues.
use illinux.Prelude.{ℕ, ◌≡◌, ◌≢◌, refl, ◌∙◌, true, false, List, [], ◌∷◌, ◌++◌, ◌==◌, arith}
use illinux.Cmd.{done, modify, then_done}
use illinux.Mem.{store, store_other}
use illinux.Thread.{
  waiting, running, ready, is_state, Sched, insert_ready, remove_ready, resume, suspend_self,
}
use illinux.Thread.Lists.{Links, ThreadList, tlempty}
use illinux.Thread.Queues.{Queues, SameTable, apart, outside}
use illinux.Thread.Steps.{insert_ready-Queues, remove_ready-Queues}

pub not_empty :
    (s : Sched) (p : ℕ) (r : List ℕ) (w : ℕ → List ℕ)
    → Queues s (p ∷ r) w
    → tlempty s.ready_list ≡ false
unfolding tlempty
not_empty s p r w q = ground (arith, q.ready_queue.chain.0)

suspend_self_removes :
    (s s1 : Sched) (p : ℕ)
    → tlempty s.ready_list ≡ false
    → remove_ready s ≡ done p s1
    → suspend_self s ≡ resume s.current p s1
unfolding suspend_self
suspend_self_removes s s1 p full e =
    rw (suspend_self, full) (then_done remove_ready (resume s.current) e)

resume_off :
    (s : Sched) (c p : ℕ)
    → s.state p ≡ ready
    → is_state (s.state c) running ≡ false
    → c ≢ p
    → resume c p s ≡ done tt (record s { state = store s.state p running; current = p })
unfolding resume
resume_off s c p is_r off ne =
    let first : is_state (s.state p) ready ≡ true = rw is_r refl in
    let miss : (p == c) ≡ false = ground arith in rw (resume, first, miss, off) refl

resume_on :
    (s : Sched) (c p : ℕ) (n : Links) (l : ThreadList)
    → s.state p ≡ ready
    → s.state c ≡ running
    → let s1 = record s { state = store (store s.state p running) c ready } in
      insert_ready c s1 ≡ done tt (record s1 { list_next = n; ready_list = l })
      → resume c p s ≡ done tt (record s1 { list_next = n; ready_list = l; current = p })
unfolding resume
resume_on s c p n l is_r is_on put =
    let first : is_state (s.state p) ready ≡ true = rw is_r refl in
    let miss : (p == c) ≡ false =
      ground (arith, apart s.state p c ready running is_r is_on (omega arith)) in
    let on : is_state (s.state c) running ≡ true = rw is_on refl in
    rw (resume, first, miss, on)
      (then_done (insert_ready c) (λ _. modify λ s'. record s' { current = p }) put)

-- The thread at the front runs, where the suspended one has left the running state.
pub suspend_self-off :
    (s : Sched) (p : ℕ) (r : List ℕ) (w : ℕ → List ℕ)
    → Queues s (p ∷ r) w
    → is_state (s.state s.current) running ≡ false
    → s.current ≢ p
    → (s' : Sched) × (suspend_self s ≡ done tt s')
      × Queues s' r w
      × (s'.current ≡ p)
      × (s'.state ≡ store s.state p running)
      × SameTable s s'
suspend_self-off s p r w q off ne =
    let (n, l, removed, q') = remove_ready-Queues s p r w q in
    let s1 = record s { list_next = n; ready_list = l } in
    (
      record s1 { state = store s.state p running; current = p },
      suspend_self_removes s s1 p (not_empty s p r w q) removed
          ∙ resume_off s1 s.current p (q.ready_state p (ground arith)) off ne,
      record {
        ready_queue = q'.ready_queue;
        wait_queue = q'.wait_queue;
        ready_state = q'.ready_state;
        wait_state = q'.wait_state;
        wait_for = q'.wait_for;
      },
      refl,
      refl,
      record { thrtab = refl; parent = refl; child_exit = refl },
    )

-- The thread at the front runs, and the suspended one, still running, goes to the end.
pub suspend_self-on :
    (s : Sched) (p : ℕ) (r : List ℕ) (w : ℕ → List ℕ)
    → Queues s (p ∷ r) w
    → s.state s.current ≡ running
    → (s' : Sched) × (suspend_self s ≡ done tt s')
      × Queues s' (r ++ (s.current ∷ [])) w
      × (s'.current ≡ p)
      × (s'.state ≡ store (store s.state p running) s.current ready)
      × SameTable s s'
suspend_self-on s p r w q on =
    let (n, l, removed, q') = remove_ready-Queues s p r w q in
    let s1 = record s { list_next = n; ready_list = l } in
    let s2 = record s1 { state = store s.state p running } in
    let is_r : s.state p ≡ ready = q.ready_state p (ground arith) in
    let ne : s.current ≢ p = apart s.state s.current p running ready on is_r (omega arith) in
    let on2 : s2.state s.current ≡ running = store_other s.state p running s.current ne ∙ on in
    let (n', l', put, q'') =
      insert_ready-Queues s2 s.current r w q'
        (outside s2.state ready running r s.current q'.ready_state on2 (omega arith))
        (λ c.
          outside s2.state waiting running (w c) s.current (q'.wait_state c) on2 (omega arith)) in
    (
      record s2 {
        state = store s2.state s.current ready;
        list_next = n';
        ready_list = l';
        current = p;
      },
      suspend_self_removes s s1 p (not_empty s p r w q) removed
          ∙ resume_on s1 s.current p n' l' is_r on put,
      record {
        ready_queue = q''.ready_queue;
        wait_queue = q''.wait_queue;
        ready_state = q''.ready_state;
        wait_state = q''.wait_state;
        wait_for = q''.wait_for;
      },
      refl,
      refl,
      record { thrtab = refl; parent = refl; child_exit = refl },
    )
