-- ===== src/Thread/Broadcast.antt =====
-- src/kern/thread.c: what `condition_broadcast` does to the queues.
use illinux.Prelude.{
  ℕ, zero, suc, ◌<◌, ◌≡◌, ◌≢◌, refl, sym, ap, ◌∙◌, subst, fun_ext, true, false, Option, none, some,
  List, [], ◌∷◌, ◌++◌, append-nil, length, ◌==◌, if◌then◌else◌, arith, inl, inr, Bool-cases,
}
use illinux.Cmd.{done, then_done}
use illinux.Mem.{store, store_same, store_other}
use illinux.Thread.{
  waiting, ready, is_state, is_cond, Sched, mark_ready, append_waiting, condition_broadcast,
}
use illinux.Thread.Lists.{Links, ThreadList, tlclear, tlempty, tlappend}
use illinux.Thread.Queue.{has, Chain, Distinct, IsQueue, has-append, not_eq_of_has}
use illinux.Thread.QueueOps.{tlempty-queue, tlappend-IsQueue}
use illinux.Thread.Queues.{Queues, SameTable, outside, IsQueue-frame, one_cond}

-- The members that the loop sets.
abbrev set_all : {A : Type 0} → (ℕ → A) → List ℕ → A → ℕ → A
set_all m [] a = m
set_all m (x ∷ xs) a = set_all (store m x a) xs a

set_all_lem :
    {A : Type 0} (m : ℕ → A) (xs : List ℕ) (a : A) (q : ℕ)
    → set_all m xs a q ≡ (if has q xs then a else m q)
set_all_lem m [] a q = refl
set_all_lem m (x ∷ xs) a q = ground (arith, set_all_lem (store m x a) xs a q)

abbrev marked : Sched → List ℕ → Sched
marked s xs = record s { state = set_all s.state xs ready; wait_cond = set_all s.wait_cond xs none }

mark_ready_step :
    (fuel c p : ℕ) (s : Sched)
    → s.state p ≡ waiting
    → s.wait_cond p ≡ some c
    → mark_ready (suc fuel) c (some p) s ≡ mark_ready fuel c (s.list_next p) (marked s (p ∷ []))
unfolding mark_ready
mark_ready_step fuel c p s w f =
    let is_w : is_state (s.state p) waiting ≡ true = rw w refl in
    let eq : (c == c) ≡ true = ground arith in
    let is_c : is_cond (s.wait_cond p) c ≡ true = rw f eq in rw (mark_ready, is_w, is_c) refl

mark_ready_lem :
    (fuel c : ℕ) (h : Option ℕ) (xs : List ℕ) (s : Sched)
    → Chain s.list_next h xs
    → Distinct xs
    → ((p : ℕ) → has p xs ≡ true → s.state p ≡ waiting)
    → ((p : ℕ) → has p xs ≡ true → s.wait_cond p ≡ some c)
    → length xs < fuel
    → mark_ready fuel c h s ≡ done tt (marked s xs)
unfolding mark_ready
mark_ready_lem zero c h xs s ch d ws wc lt = absurd (omega (arith, lt))
mark_ready_lem (suc fuel) c h [] s ch d ws wc lt = rw ch refl
mark_ready_lem (suc fuel) c h (x ∷ xs) s ch d ws wc lt =
    let first : has x (x ∷ xs) ≡ true = ground arith in
    let other : (a : ℕ) → has a xs ≡ true → a ≢ x = λ a i e. not_eq_of_has x a xs d.0 i (sym e) in
    ap (λ h'. mark_ready (suc fuel) c h' s) ch.0
    ∙ mark_ready_step fuel c x s (ws x first) (wc x first)
    ∙ mark_ready_lem fuel c (s.list_next x) xs (marked s (x ∷ [])) ch.1 d.1
        (λ a i. store_other s.state x ready a (other a i) ∙ ws a (ground (arith, i)))
        (λ a i. store_other s.wait_cond x none a (other a i) ∙ wc a (ground (arith, i)))
        (omega (arith, lt))

-- What a broadcast has done.
pub record IsWoken (s : Sched) (c : ℕ) (r : List ℕ) (w : ℕ → List ℕ) (s' : Sched) : Type 0 where
  pub queues : Queues s' (r ++ w c) (store w c [])
  pub same_state : (p : ℕ) → has p (w c) ≡ false → s'.state p ≡ s.state p
  pub same_current : s'.current ≡ s.current
  pub same_table : SameTable s s'

store_present : (w : ℕ → List ℕ) (c : ℕ) (l : List ℕ) → w c ≡ l → store w c l ≡ w
store_present w c l e = fun_ext λ d. elim (Bool-cases (c == d)) [
  | inl h ↦ let same : d ≡ c = ground (arith, h) in rw h (sym e ∙ ap w (sym same))
  | inr h ↦ rw h refl
]

broadcast_none :
    (fuel c : ℕ) (s : Sched) (r : List ℕ) (w : ℕ → List ℕ)
    → Queues s r w
    → tlempty (s.wait_list c) ≡ true
    → (s' : Sched) × (condition_broadcast fuel c s ≡ done tt s') × IsWoken s c r w s'
unfolding condition_broadcast
broadcast_none fuel c s r w q e =
    let nil : w c ≡ [] = (tlempty-queue s.list_next (s.wait_list c) (w c) (q.wait_queue c)).0 e in
    (
      s,
      rw (condition_broadcast, e) refl,
      record {
        queues =
            subst (λ l. Queues s (r ++ l) (store w c [])) (sym nil)
              (subst (λ x. Queues s (r ++ []) x) (sym (store_present w c [] nil))
                (subst (λ x. Queues s x w) (sym (append-nil r)) q));
        same_state = λ p o. refl;
        same_current = refl;
        same_table = record { thrtab = refl; parent = refl; child_exit = refl };
      },
    )

append_waiting_lem :
    (s : Sched) (c : ℕ) (n : Links) (l : ThreadList)
    → tlappend s.list_next s.ready_list (s.wait_list c) ≡ some (n, l)
    → append_waiting c s
      ≡ done tt
          (record s { list_next = n; ready_list = l; wait_list = store s.wait_list c tlclear })
unfolding append_waiting
append_waiting_lem s c n l e = rw (append_waiting, e) refl

set_in :
    {A : Type 0} (m : ℕ → A) (xs : List ℕ) (a : A) (q : ℕ) → has q xs ≡ true → set_all m xs a q ≡ a
set_in m xs a q i = set_all_lem m xs a q ∙ rw i refl

set_out :
    {A : Type 0} (m : ℕ → A) (xs : List ℕ) (a : A) (q : ℕ)
    → has q xs ≡ false
    → set_all m xs a q ≡ m q
set_out m xs a q o = set_all_lem m xs a q ∙ rw o refl

-- A thread in a queue where that of `c` has been emptied is in another.
in_rest :
    (w : ℕ → List ℕ) (c d a : ℕ) → has a (store w c [] d) ≡ true → (d ≢ c) × (has a (w d) ≡ true)
in_rest w c d a i = elim (Bool-cases (c == d)) [
  | inl e ↦
      let i' : false ≡ true =
        subst (λ l. has a l ≡ true) (store_same w c [] d (ground (arith, e))) i in
      absurd (ground (arith, i'))
  | inr e ↦
      let ne : d ≢ c = λ h. ground (arith, e, h) in
      (ne, subst (λ l. has a l ≡ true) (store_other w c [] d ne) i)
]

woken-Queues :
    (s : Sched) (c : ℕ) (r : List ℕ) (w : ℕ → List ℕ) (n : Links) (l : ThreadList)
    → Queues s r w
    → IsQueue n l (r ++ w c)
    → ((a : ℕ) → has a r ≡ false → n a ≡ s.list_next a)
    → Queues
        (record s {
          state = set_all s.state (w c) ready;
          wait_cond = set_all s.wait_cond (w c) none;
          list_next = n;
          ready_list = l;
          wait_list = store s.wait_list c tlclear;
        })
        (r ++ w c)
        (store w c [])
woken-Queues s c r w n l q joined same = record {
  ready_queue = joined;
  wait_queue = λ d. elim (Bool-cases (c == d)) [
    | inl e ↦ rw e (record { chain = refl; end = refl; distinct = tt })
    | inr e ↦ rw e (
        IsQueue-frame s.list_next n (s.wait_list d) (w d)
          (λ a i.
            same a
              (outside s.state ready waiting r a q.ready_state (q.wait_state d a i) (omega arith)))
          (q.wait_queue d))
  ];
  ready_state = λ a i. elim (Bool-cases (has a (w c))) [
    | inl h ↦ set_in s.state (w c) ready a h
    | inr h ↦
        set_out s.state (w c) ready a h
        ∙ q.ready_state a (ground (arith, has-append a r (w c), i, h))
  ];
  wait_state = λ d a i.
      let (ne, h) = in_rest w c d a i in
      set_out s.state (w c) ready a (one_cond s r w q c d a ne h) ∙ q.wait_state d a h;
  wait_for = λ d a i.
      let (ne, h) = in_rest w c d a i in
      set_out s.wait_cond (w c) none a (one_cond s r w q c d a ne h) ∙ q.wait_for d a h;
}

broadcast_some :
    (fuel c : ℕ) (s : Sched) (r : List ℕ) (w : ℕ → List ℕ)
    → Queues s r w
    → length (w c) < fuel
    → tlempty (s.wait_list c) ≡ false
    → (s' : Sched) × (condition_broadcast fuel c s ≡ done tt s') × IsWoken s c r w s'
unfolding condition_broadcast
broadcast_some fuel c s r w q lt e =
    let wq = q.wait_queue c in
    let (n, l, joins, joined, same) =
      tlappend-IsQueue s.list_next s.ready_list (s.wait_list c) r (w c) q.ready_queue wq (λ a i.
        outside s.state waiting ready (w c) a (q.wait_state c) (q.ready_state a i) (omega arith)) in
    let marks : mark_ready fuel c (s.wait_list c).head s ≡ done tt (marked s (w c)) =
      mark_ready_lem fuel c (s.wait_list c).head (w c) s wq.chain wq.distinct (q.wait_state c)
        (q.wait_for c) lt in
    (
      record (marked s (w c)) {
        list_next = n;
        ready_list = l;
        wait_list = store s.wait_list c tlclear;
      },
      rw (condition_broadcast, e)
          (then_done (mark_ready fuel c (s.wait_list c).head) (λ _. append_waiting c) marks
            ∙ append_waiting_lem (marked s (w c)) c n l joins),
      record {
        queues = woken-Queues s c r w n l q joined same;
        same_state = λ p o. set_out s.state (w c) ready p o;
        same_current = refl;
        same_table = record { thrtab = refl; parent = refl; child_exit = refl };
      },
    )

-- A broadcast finds no failing assertion. It puts the threads that wait for the condition behind the
-- ready ones, in their order, empties the wait list, and changes no other thread's state.
pub condition_broadcast-Queues :
    (fuel c : ℕ) (s : Sched) (r : List ℕ) (w : ℕ → List ℕ)
    → Queues s r w
    → length (w c) < fuel
    → (s' : Sched) × (condition_broadcast fuel c s ≡ done tt s') × IsWoken s c r w s'
condition_broadcast-Queues fuel c s r w q lt = elim (Bool-cases (tlempty (s.wait_list c))) [
  | inl e ↦ broadcast_none fuel c s r w q e
  | inr e ↦ broadcast_some fuel c s r w q lt e
]
