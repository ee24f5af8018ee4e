-- ===== src/Thread/Steps.antt =====
-- src/kern/thread.c: what the steps of the scheduler do to the queues.
use illinux.Prelude.{
  ℕ, ◌≡◌, ◌≢◌, refl, sym, ap, ◌∙◌, true, false, Option, none, some, List, [], ◌∷◌, ◌++◌, ◌==◌,
  arith, inl, inr, Bool-cases,
}
use illinux.Cmd.{Run, done, panic}
use illinux.Mem.{store, store_same, store_other}
use illinux.Thread.{waiting, running, ready, Sched, insert_ready, insert_waiting, remove_ready}
use illinux.Thread.Lists.{Links, ThreadList}
use illinux.Thread.Queue.{has, IsQueue, not_eq_of_has}
use illinux.Thread.QueueOps.{tlinsert-IsPut, tlremove-IsQueue}
use illinux.Thread.Queues.{Queues, apart, outside, IsQueue-frame, in_snoc, in_more, one_cond}

-- A thread that is in no queue and is made ready and put into the ready list is the last of its queue.
pub insert_ready-Queues :
    (s : Sched) (p : ℕ) (r : List ℕ) (w : ℕ → List ℕ)
    → Queues s r w
    → has p r ≡ false
    → ((c : ℕ) → has p (w c) ≡ false)
    → let s1 = record s { state = store s.state p ready } in
      (next : Links) × (l : ThreadList) × (insert_ready p s1
        ≡ done tt (record s1 { list_next = next; ready_list = l }))
      × Queues (record s1 { list_next = next; ready_list = l }) (r ++ (p ∷ [])) w
unfolding insert_ready
insert_ready-Queues s p r w q out off =
    let (next, l, put, did) = tlinsert-IsPut s.list_next s.ready_list p r q.ready_queue out in
    let not_ready : (a : ℕ) → has a r ≡ true → a ≢ p = λ a i e. not_eq_of_has p a r out i (sym e) in
    let not_waiting : (c a : ℕ) → has a (w c) ≡ true → a ≢ p =
      λ c a i e. not_eq_of_has p a (w c) (off c) i (sym e) in
    (
      next,
      l,
      rw (insert_ready, put) refl,
      record {
        ready_queue = did.queue;
        wait_queue = λ c.
            IsQueue-frame s.list_next next (s.wait_list c) (w c)
              (λ a i.
                did.same a
                  (outside s.state ready waiting r a q.ready_state (q.wait_state c a i)
                    (omega arith))
                  (not_waiting c a i))
              (q.wait_queue c);
        ready_state = λ a i.
            in_snoc a p r i (store s.state p ready a ≡ ready)
              (λ h. store_other s.state p ready a (not_ready a h) ∙ q.ready_state a h)
              (λ e. store_same s.state p ready a e);
        wait_state =
            λ c a i. store_other s.state p ready a (not_waiting c a i) ∙ q.wait_state c a i;
        wait_for = q.wait_for;
      },
    )

abbrev handed : Sched → Links × ThreadList × Option ℕ → Run Sched ℕ
handed s r = elim r.2 [
  | none ↦ panic
  | some thr ↦ done thr (record s { list_next = r.0; ready_list = r.1 })
]

-- A ready thread taken from the front of the ready list runs, and is in no queue.
pub remove_ready-Queues :
    (s : Sched) (p : ℕ) (r : List ℕ) (w : ℕ → List ℕ)
    → Queues s (p ∷ r) w
    → (next : Links) × (l : ThreadList) × (remove_ready s
        ≡ done p (record s { list_next = next; ready_list = l }))
      × Queues (record s { list_next = next; ready_list = l; state = store s.state p running }) r w
unfolding remove_ready
remove_ready-Queues s p r w q =
    let (next, l, removed, queue, same) =
      tlremove-IsQueue s.list_next s.ready_list p r q.ready_queue in
    let first : s.state p ≡ ready = q.ready_state p (ground arith) in
    let rest : (a : ℕ) → has a r ≡ true → has a (p ∷ r) ≡ true = λ a i. ground (arith, i) in
    let waits : (c a : ℕ) → has a (w c) ≡ true → a ≢ p =
      λ c a i. apart s.state a p waiting ready (q.wait_state c a i) first (omega arith) in
    (
      next,
      l,
      ap (handed s) removed,
      record {
        ready_queue = queue;
        wait_queue = λ c.
            IsQueue-frame s.list_next next (s.wait_list c) (w c) (λ a i. same a (waits c a i))
              (q.wait_queue c);
        ready_state = λ a i.
            store_other s.state p running a
              (λ e. not_eq_of_has p a r q.ready_queue.distinct.0 i (sym e))
            ∙ q.ready_state a (rest a i);
        wait_state = λ c a i. store_other s.state p running a (waits c a i) ∙ q.wait_state c a i;
        wait_for = q.wait_for;
      },
    )

-- A running thread that is put into the wait list of `c` is the last of its queue.
pub insert_waiting-Queues :
    (s : Sched) (p c : ℕ) (r : List ℕ) (w : ℕ → List ℕ)
    → Queues s r w
    → s.state p ≡ running
    → let s1 = record s {
      state = store s.state p waiting;
      wait_cond = store s.wait_cond p (some c);
      list_next = store s.list_next p none;
    } in
      (next : Links) × (l : ThreadList) × (insert_waiting c p s1
        ≡ done tt (record s1 { list_next = next; wait_list = store s.wait_list c l }))
      × Queues
          (record s1 { list_next = next; wait_list = store s.wait_list c l })
          r
          (store w c (w c ++ (p ∷ [])))
unfolding insert_waiting
insert_waiting-Queues s p c r w q run =
    let n0 : Links = store s.list_next p none in
    let not_ready : (a : ℕ) → has a r ≡ true → a ≢ p =
      λ a i. apart s.state a p ready running (q.ready_state a i) run (omega arith) in
    let not_waiting : (d a : ℕ) → has a (w d) ≡ true → a ≢ p =
      λ d a i. apart s.state a p waiting running (q.wait_state d a i) run (omega arith) in
    let here : IsQueue n0 (s.wait_list c) (w c) =
      IsQueue-frame s.list_next n0 (s.wait_list c) (w c)
        (λ a i. store_other s.list_next p none a (not_waiting c a i)) (q.wait_queue c) in
    let out = outside s.state waiting running (w c) p (q.wait_state c) run (omega arith) in
    let (next, l, put, did) = tlinsert-IsPut n0 (s.wait_list c) p (w c) here out in
    (
      next,
      l,
      rw (insert_waiting, put) refl,
      record {
        ready_queue =
            IsQueue-frame s.list_next next s.ready_list r
              (λ a i.
                did.same a
                  (outside s.state waiting ready (w c) a (q.wait_state c) (q.ready_state a i)
                    (omega arith))
                  (not_ready a i)
                ∙ store_other s.list_next p none a (not_ready a i))
              q.ready_queue;
        wait_queue = λ d. elim (Bool-cases (c == d)) [
          | inl e ↦ rw e did.queue
          | inr e ↦
              let ne : d ≢ c = λ eq. ground (arith, e, eq) in
              rw e (
                IsQueue-frame s.list_next next (s.wait_list d) (w d)
                  (λ a i.
                    did.same a (one_cond s r w q c d a ne i) (not_waiting d a i)
                    ∙ store_other s.list_next p none a (not_waiting d a i))
                  (q.wait_queue d))
        ];
        ready_state = λ a i. store_other s.state p waiting a (not_ready a i) ∙ q.ready_state a i;
        wait_state = λ d a i.
            in_more w c p d a i (store s.state p waiting a ≡ waiting)
              (λ h. store_other s.state p waiting a (not_waiting d a h) ∙ q.wait_state d a h)
              (λ e _. store_same s.state p waiting a e);
        wait_for = λ d a i.
            in_more w c p d a i (store s.wait_cond p (some c) a ≡ some d)
              (λ h. store_other s.wait_cond p (some c) a (not_waiting d a h) ∙ q.wait_for d a h)
              (λ e same. store_same s.wait_cond p (some c) a e ∙ ap some (sym same));
      },
    )
