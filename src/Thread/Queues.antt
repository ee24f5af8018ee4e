-- ===== src/Thread/Queues.antt =====
-- src/kern/thread.c: the ready list and the wait lists together.
use illinux.Prelude.{
  ℕ, ◌≡◌, ◌≢◌, refl, sym, ap, ◌∙◌, subst, true, false, Option, none, some, List, [], ◌∷◌, ◌++◌,
  ◌==◌, arith, inl, inr, Bool-cases,
}
use illinux.Mem.{store, store_same, store_other}
use illinux.Thread.{ThreadState, waiting, ready, state_num, Sched}
use illinux.Thread.Lists.{Links, ThreadList}
use illinux.Thread.Queue.{has, Chain-frame, IsQueue, has-append}

-- The ready list stands for the queue `r` and the wait list of each condition for the queue `w` of it;
-- the threads in them are in that state and wait for that condition.
pub record Queues (s : Sched) (r : List ℕ) (w : ℕ → List ℕ) : Type 0 where
  pub ready_queue : IsQueue s.list_next s.ready_list r
  pub wait_queue : (c : ℕ) → IsQueue s.list_next (s.wait_list c) (w c)
  pub ready_state : (p : ℕ) → has p r ≡ true → s.state p ≡ ready
  pub wait_state : (c p : ℕ) → has p (w c) ≡ true → s.state p ≡ waiting
  pub wait_for : (c p : ℕ) → has p (w c) ≡ true → s.wait_cond p ≡ some c

-- Who is in the table, and who waits for whose exit.
pub record SameTable (s s' : Sched) : Type 0 where
  pub thrtab : s'.thrtab ≡ s.thrtab
  pub parent : s'.parent ≡ s.parent
  pub child_exit : s'.child_exit ≡ s.child_exit

abbrev pub same_table : (s : Sched) → SameTable s s
same_table s = record { thrtab = refl; parent = refl; child_exit = refl }

pub SameTable-trans : (s s' s'' : Sched) → SameTable s s' → SameTable s' s'' → SameTable s s''
SameTable-trans s s' s'' f g = record {
  thrtab = g.thrtab ∙ f.thrtab;
  parent = g.parent ∙ f.parent;
  child_exit = g.child_exit ∙ f.child_exit;
}

-- Threads in different states are different.
pub apart :
    (f : ℕ → ThreadState) (p q : ℕ) (a b : ThreadState)
    → f p ≡ a
    → f q ≡ b
    → state_num a ≢ state_num b
    → p ≢ q
apart f p q a b ep eq ne e = ne (ap state_num (sym ep ∙ ap f e ∙ eq))

-- A thread in another state than all of a queue is not in it.
pub outside :
    (f : ℕ → ThreadState) (a b : ThreadState) (xs : List ℕ) (p : ℕ)
    → ((q : ℕ) → has q xs ≡ true → f q ≡ a)
    → f p ≡ b
    → state_num a ≢ state_num b
    → has p xs ≡ false
outside f a b xs p all e ne = elim (Bool-cases (has p xs)) [
  | inl i ↦ absurd (ne (ap state_num (sym (all p i) ∙ e)))
  | inr o ↦ o
]

pub IsQueue-frame :
    (next next' : Links) (l : ThreadList) (qs : List ℕ)
    → ((a : ℕ) → has a qs ≡ true → next' a ≡ next a)
    → IsQueue next l qs
    → IsQueue next' l qs
IsQueue-frame next next' l qs same q = record {
  chain = Chain-frame next next' l.head qs same q.chain;
  end = q.end;
  distinct = q.distinct;
}

-- A thread in a queue with one more at the end.
pub in_snoc :
    (a p : ℕ) (qs : List ℕ)
    → has a (qs ++ (p ∷ [])) ≡ true
    → (P : Type 0) → (has a qs ≡ true → P)
    → (a ≡ p → P)
    → P
in_snoc a p qs i P old new = elim (Bool-cases (has a qs)) [
  | inl h ↦ old h
  | inr o ↦
      let e : has a (qs ++ (p ∷ [])) ≡ has a (p ∷ []) = ground (arith, has-append a qs (p ∷ [])) in
      new (ground (arith, e, i))
]

-- A thread in a family of queues with one more at the end of the queue of `c`.
pub in_more :
    (w : ℕ → List ℕ) (c p d a : ℕ)
    → has a (store w c (w c ++ (p ∷ [])) d) ≡ true
    → (P : Type 0) → (has a (w d) ≡ true → P)
    → (a ≡ p → d ≡ c → P)
    → P
in_more w c p d a i P old new = elim (Bool-cases (c == d)) [
  | inl e ↦
      let same : d ≡ c = ground (arith, e) in
      let i' : has a (w c ++ (p ∷ [])) ≡ true =
        subst (λ l. has a l ≡ true) (store_same w c (w c ++ (p ∷ [])) d same) i in
      in_snoc a p (w c) i' P (λ h. old (subst (λ x. has a (w x) ≡ true) (sym same) h))
        (λ e. new e same)
  | inr ne ↦ old (
      subst (λ l. has a l ≡ true) (store_other w c (w c ++ (p ∷ [])) d (λ e. ground (arith, ne, e)))
        i)
]

cond_of : Option ℕ → ℕ → ℕ
cond_of none d = d
cond_of (some c) d = c

-- A thread waits for one condition only.
pub one_cond :
    (s : Sched) (r : List ℕ) (w : ℕ → List ℕ)
    → Queues s r w
    → (c d a : ℕ) → d ≢ c
    → has a (w d) ≡ true
    → has a (w c) ≡ false
unfolding cond_of
one_cond s r w q c d a ne i = elim (Bool-cases (has a (w c))) [
  | inl j ↦ absurd (ne (ap (λ o. cond_of o 0) (sym (q.wait_for d a i) ∙ q.wait_for c a j)))
  | inr o ↦ o
]
