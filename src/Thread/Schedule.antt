-- ===== src/Thread/Schedule.antt =====
-- src/kern/thread.c: the scheduler as a queue of ready threads and a queue for each condition.
use illinux.Prelude.{
  ℕ, ◌<◌, ◌≡◌, ◌≢◌, refl, sym, ap, ◌∙◌, subst, true, none, some, List, [], ◌∷◌, ◌++◌, length, ◌==◌,
  arith, inl, inr, Bool-cases,
}
use illinux.Cmd.{done, panic, then_done}
use illinux.Mem.{store, store_same, store_other}
use illinux.Thread.{
  ThreadState, waiting, running, ready, state_num, is_state, Sched, insert_waiting, suspend_self,
  thread_yield, condition_wait, condition_broadcast,
}
use illinux.Thread.Lists.{tlempty}
use illinux.Thread.Queue.{has, has-append}
use illinux.Thread.Queues.{Queues, SameTable, SameTable-trans, apart, outside}
use illinux.Thread.Steps.{insert_waiting-Queues}
use illinux.Thread.Switch.{suspend_self-off, suspend_self-on}
use illinux.Thread.Broadcast.{IsWoken, condition_broadcast-Queues}

-- What the scheduler is for: who runs, who is ready and who waits for what, the first in front.
pub record Schedule : Type 0 where
  pub runs : ℕ
  pub ready_threads : List ℕ
  pub waiting_threads : ℕ → List ℕ

-- The members of the threads stand for a schedule, and one thread runs.
pub record IsSchedule (s : Sched) (a : Schedule) : Type 0 where
  pub queues : Queues s a.ready_threads a.waiting_threads
  pub current : s.current ≡ a.runs
  pub runs : s.state a.runs ≡ running
  pub alone : (p : ℕ) → s.state p ≡ running → p ≡ a.runs

abbrev pub schedule : ℕ → List ℕ → (ℕ → List ℕ) → Schedule
schedule t r w = record { runs = t; ready_threads = r; waiting_threads = w }

thread_yield_running : (s : Sched) → s.state s.current ≡ running → thread_yield s ≡ suspend_self s
unfolding thread_yield
thread_yield_running s on =
    let e : is_state (s.state s.current) running ≡ true = rw on refl in rw (thread_yield, e) refl

-- Only the next thread runs after a switch.
pub only :
    (f g : ℕ → ThreadState) (t p x : ℕ)
    → ((y : ℕ) → f y ≡ running → y ≡ t)
    → (a : ThreadState) → g t ≡ a
    → state_num a ≢ state_num running
    → ((y : ℕ) → y ≢ t → y ≢ p → g y ≡ f y)
    → g x ≡ running
    → x ≡ p
only f g t p x alone a at_t off same h = elim (Bool-cases (p == x)) [
  | inl e ↦ ground (arith, e)
  | inr e ↦
      let ne : x ≢ p = λ eq. ground (arith, e, eq) in
      let left : x ≢ t = λ eq. off (ap state_num (sym at_t ∙ sym (ap g eq) ∙ h)) in
      absurd (left (alone x (sym (same x left ne) ∙ h)))
]

-- Where a thread `p` is ready, `thread_yield` finds no failing assertion and gives the processor to the
-- first that is; the thread that yields is the last of the ready ones, and the waiting threads are as
-- before.
pub thread_yield-IsSchedule :
    (s : Sched) (t p : ℕ) (r : List ℕ) (w : ℕ → List ℕ)
    → IsSchedule s (schedule t (p ∷ r) w)
    → (s' : Sched) × (thread_yield s ≡ done tt s') × IsSchedule s' (schedule p (r ++ (t ∷ [])) w)
thread_yield-IsSchedule s t p r w i =
    let on : s.state s.current ≡ running =
      subst (λ x. s.state x ≡ running) (sym i.current) i.runs in
    let ne : p ≢ s.current =
      apart s.state p s.current ready running (i.queues.ready_state p (ground arith)) on
        (omega arith) in
    let (s', e, q, cur, st, fixed) = suspend_self-on s p r w i.queues on in
    (
      s',
      thread_yield_running s on ∙ e,
      record {
        queues = subst (λ x. Queues s' (r ++ (x ∷ [])) w) i.current q;
        current = cur;
        runs =
            ap (λ f. f p) st
            ∙ store_other (store s.state p running) s.current ready p ne
            ∙ store_same s.state p running p refl;
        alone = λ x h.
            only s.state (store (store s.state p running) s.current ready) s.current p x
              (λ y g. i.alone y g ∙ sym i.current) ready
              (store_same (store s.state p running) s.current ready s.current refl) (omega arith)
              (λ y nt np.
                store_other (store s.state p running) s.current ready y nt
                ∙ store_other s.state p running y np)
              (ap (λ f. f x) (sym st) ∙ h);
      },
    )

condition_wait_running :
    (c : ℕ) (s s2 : Sched)
    → s.state s.current ≡ running
    → insert_waiting c s.current (record s {
      state = store s.state s.current waiting;
      wait_cond = store s.wait_cond s.current (some c);
      list_next = store s.list_next s.current none;
    })
      ≡ done tt s2
    → condition_wait c s ≡ suspend_self s2
unfolding condition_wait
condition_wait_running c s s2 on put =
    let e : is_state (s.state s.current) running ≡ true = rw on refl in
    rw (condition_wait, e) (then_done (insert_waiting c s.current) (λ _. suspend_self) put)

-- What `condition_wait` has done before it suspends the thread.
condition_wait-suspends :
    (s : Sched) (c : ℕ) (r : List ℕ) (w : ℕ → List ℕ)
    → Queues s r w
    → s.state s.current ≡ running
    → (s2 : Sched) × (condition_wait c s ≡ suspend_self s2)
      × Queues s2 r (store w c (w c ++ (s.current ∷ [])))
      × (s2.current ≡ s.current)
      × (s2.state ≡ store s.state s.current waiting)
      × SameTable s s2
condition_wait-suspends s c r w q on =
    let (n, l, put, q2) = insert_waiting-Queues s s.current c r w q on in
    let s2 = record s {
      state = store s.state s.current waiting;
      wait_cond = store s.wait_cond s.current (some c);
      list_next = n;
      wait_list = store s.wait_list c l;
    } in
    (
      s2,
      condition_wait_running c s s2 on put,
      record {
        ready_queue = q2.ready_queue;
        wait_queue = q2.wait_queue;
        ready_state = q2.ready_state;
        wait_state = q2.wait_state;
        wait_for = q2.wait_for;
      },
      refl,
      refl,
      record { thrtab = refl; parent = refl; child_exit = refl },
    )

pub current_runs : (s : Sched) (a : Schedule) → IsSchedule s a → s.state s.current ≡ running
current_runs s a i = subst (λ x. s.state x ≡ running) (sym i.current) i.runs

-- Where a thread `p` is ready, `condition_wait` finds no failing assertion, puts the running thread at
-- the end of the queue of the condition, and gives the processor to the first ready thread.
pub condition_wait-IsSchedule :
    (s : Sched) (t p c : ℕ) (r : List ℕ) (w : ℕ → List ℕ)
    → IsSchedule s (schedule t (p ∷ r) w)
    → (s' : Sched) × (condition_wait c s ≡ done tt s')
      × IsSchedule s' (schedule p r (store w c (w c ++ (t ∷ []))))
      × SameTable s s'
condition_wait-IsSchedule s t p c r w i =
    let cur = s.current in
    let on = current_runs s (schedule t (p ∷ r) w) i in
    let is_r = i.queues.ready_state p (ground arith) in
    let ne : cur ≢ p = apart s.state cur p running ready on is_r (omega arith) in
    let (s2, waits, q2, same, st2, fixed) = condition_wait-suspends s c (p ∷ r) w i.queues on in
    let off : s2.state s2.current ≡ waiting =
      ap s2.state same ∙ ap (λ f. f cur) st2 ∙ store_same s.state cur waiting cur refl in
    let (s', e, q', at_p, st, fixed') =
      suspend_self-off s2 p r (store w c (w c ++ (cur ∷ []))) q2 (rw off refl)
        (λ h. ne (sym same ∙ h)) in
    let states : s'.state ≡ store (store s.state cur waiting) p running =
      st ∙ ap (λ f. store f p running) st2 in
    (
      s',
      waits ∙ e,
      record {
        queues = subst (λ x. Queues s' r (store w c (w c ++ (x ∷ [])))) i.current q';
        current = at_p;
        runs = ap (λ f. f p) st ∙ store_same s2.state p running p refl;
        alone = λ x h.
            only s.state (store (store s.state cur waiting) p running) cur p x
              (λ y g. i.alone y g ∙ sym i.current) waiting
              (store_other (store s.state cur waiting) p running cur ne
                ∙ store_same s.state cur waiting cur refl)
              (omega arith)
              (λ y nt np.
                store_other (store s.state cur waiting) p running y np
                ∙ store_other s.state cur waiting y nt)
              (ap (λ f. f x) (sym states) ∙ h);
      },
      SameTable-trans s s2 s' fixed fixed',
    )

-- A broadcast makes no thread run.
pub ran_before :
    (s s' : Sched) (c x : ℕ) (r : List ℕ) (w : ℕ → List ℕ)
    → IsWoken s c r w s'
    → s'.state x ≡ running
    → s.state x ≡ running
ran_before s s' c x r w did h = elim (Bool-cases (has x (w c))) [
  | inl j ↦
      let is_r = did.queues.ready_state x (ground (arith, has-append x r (w c), j)) in
      absurd (apart s'.state x x ready running is_r h (omega arith) refl)
  | inr o ↦ sym (did.same_state x o) ∙ h
]

-- With more fuel than threads that wait for the condition, `condition_broadcast` finds no failing
-- assertion and puts them, in their order, behind the threads that are ready; the running thread
-- goes on.
pub condition_broadcast-IsSchedule :
    (fuel c : ℕ) (s : Sched) (t : ℕ) (r : List ℕ) (w : ℕ → List ℕ)
    → IsSchedule s (schedule t r w)
    → length (w c) < fuel
    → (s' : Sched) × (condition_broadcast fuel c s ≡ done tt s')
      × IsSchedule s' (schedule t (r ++ w c) (store w c []))
condition_broadcast-IsSchedule fuel c s t r w i lt =
    let (s', e, did) = condition_broadcast-Queues fuel c s r w i.queues lt in
    let out =
      outside s.state waiting running (w c) t (i.queues.wait_state c) i.runs (omega arith) in
    (
      s',
      e,
      record {
        queues = did.queues;
        current = did.same_current ∙ i.current;
        runs = did.same_state t out ∙ i.runs;
        alone = λ x h. i.alone x (ran_before s s' c x r w did h);
      },
    )

suspend_self-empty : (s : Sched) (w : ℕ → List ℕ) → Queues s [] w → suspend_self s ≡ panic
unfolding suspend_self tlempty
suspend_self-empty s w q = rw (suspend_self, q.ready_queue.chain) refl

-- Where no thread is ready, neither `thread_yield` nor `condition_wait` returns: an assertion fails.
pub switch_without_ready :
    (s : Sched) (t c : ℕ) (w : ℕ → List ℕ)
    → IsSchedule s (schedule t [] w)
    → (thread_yield s ≡ panic) × (condition_wait c s ≡ panic)
switch_without_ready s t c w i =
    let on = current_runs s (schedule t [] w) i in
    let (s2, waits, q2, same, st2, fixed) = condition_wait-suspends s c [] w i.queues on in
    (
      thread_yield_running s on ∙ suspend_self-empty s w i.queues,
      waits ∙ suspend_self-empty s2 (store w c (w c ++ (s.current ∷ []))) q2,
    )
