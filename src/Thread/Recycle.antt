-- ===== src/Thread/Recycle.antt =====
-- src/kern/thread.c: slots of the table of threads, taken and given back.
use illinux.Prelude.{
  ℕ, zero, suc, ◌+◌, ◌≤◌, ◌<◌, ◌≡◌, ◌≢◌, refl, sym, ap, ◌∙◌, subst, Bool, true, false, ◌&&◌, Option,
  none, some, ◌==◌, ◌||◌, if◌then◌else◌, arith, inl, inr, Bool-cases, Option-cases,
}
use illinux.Cmd.{done, pure, then_done}
use illinux.Mem.{store}
use illinux.Thread.{exited, is_state, Sched}
use illinux.Thread.Table.{
  is_null, is_thread, in_table, free_slot, reparent, recycle_thread, join_round, joined,
}

-- The thread is in one of the `n` slots from `ctid` on.
abbrev pub in_slots : ℕ → (ℕ → Option ℕ) → ℕ → ℕ → Bool
in_slots zero thrtab ctid x = false
in_slots (suc n) thrtab ctid x = is_thread (thrtab ctid) x || in_slots n thrtab (ctid + 1) x

-- A thread's parent after the loop, from its own and that of `thr`.
abbrev pub adopt : Bool → Option ℕ → Option ℕ → ℕ → Option ℕ
adopt listed own of_thr thr = if listed && is_thread own thr then of_thr else own

-- The parents after one round.
abbrev one_round : (ℕ → Option ℕ) → ℕ → ℕ → ℕ → Option ℕ
one_round parent thr c = if is_thread (parent c) thr then store parent c (parent thr) else parent

round_other : (parent : ℕ → Option ℕ) (thr c x : ℕ) → c ≢ x → one_round parent thr c x ≡ parent x
round_other parent thr c x ne = ground arith

round_thr : (parent : ℕ → Option ℕ) (thr c : ℕ) → one_round parent thr c thr ≡ parent thr
round_thr parent thr c = ground arith

round_value :
    (parent : ℕ → Option ℕ) (thr c x : ℕ)
    → one_round parent thr c x ≡ adopt (c == x) (parent x) (parent thr) thr
round_value parent thr c x = elim (Bool-cases (c == x)) [
  | inl e ↦
      let same : c ≡ x = ground (arith, e) in
      subst (λ y. one_round parent thr y x ≡ adopt (c == x) (parent x) (parent thr) thr) (sym same)
        (rw e (ground arith))
  | inr e ↦ rw e (round_other parent thr c x (λ eq. ground (arith, e, eq)))
]

-- A round and then the rest of the loop.
adopt_twice :
    (k b : Bool) (own of_thr : Option ℕ) (thr : ℕ)
    → is_thread of_thr thr ≡ false
    → adopt b (adopt k own of_thr thr) of_thr thr ≡ adopt (k || b) own of_thr thr
adopt_twice false b own of_thr thr h = refl
adopt_twice true b own of_thr thr h = elim (Bool-cases (is_thread own thr)) [
  | inl e ↦ rw (e, h) (ground arith)
  | inr e ↦ rw (e, e) (ground arith)
]

reparent_lem :
    (n : ℕ) (thrtab : ℕ → Option ℕ) (thr ctid : ℕ) (parent : ℕ → Option ℕ) (x : ℕ)
    → is_thread (parent thr) thr ≡ false
    → reparent n thrtab thr ctid parent x
      ≡ adopt (in_slots n thrtab ctid x) (parent x) (parent thr) thr
unfolding reparent
reparent_lem zero thrtab thr ctid parent x own = refl
reparent_lem (suc n) thrtab thr ctid parent x own = elim (Option-cases (thrtab ctid)) [
  | inl e ↦ rw e (reparent_lem n thrtab thr (ctid + 1) parent x own)
  | inr (c, e) ↦
      let b = in_slots n thrtab (ctid + 1) x in
      rw e (
        reparent_lem n thrtab thr (ctid + 1) (one_round parent thr c) x
          (rw (round_thr parent thr c) own)
        ∙ ap (λ o. adopt b (one_round parent thr c x) o thr) (round_thr parent thr c)
        ∙ ap (λ o. adopt b o (parent thr) thr) (round_value parent thr c x)
        ∙ adopt_twice (c == x) b (parent x) (parent thr) thr own)
]

recycle_thread_lem :
    (tid p : ℕ) (s : Sched)
    → s.thrtab tid ≡ some p
    → in_table tid ≡ true
    → s.state p ≡ exited
    → recycle_thread tid s
      ≡ done tt (record s {
        parent = reparent 15 s.thrtab p 1 s.parent;
        thrtab = store s.thrtab tid none;
      })
unfolding recycle_thread
recycle_thread_lem tid p s slot lt gone =
    let e : is_state (s.state p) exited ≡ true = rw gone refl in
    rw (recycle_thread, slot, lt, e) refl

-- A round of `thread_join` with a child that has exited and is not its own parent returns its number,
-- empties its slot and no other, and gives the children that it had in the table to its parent.
pub join_round-exited :
    (tid p : ℕ) (s : Sched)
    → s.thrtab tid ≡ some p
    → in_table tid ≡ true
    → s.state p ≡ exited
    → is_thread (s.parent p) p ≡ false
    → (s' : Sched) × (join_round tid p s ≡ done (joined tid) s')
      × (s'.thrtab ≡ store s.thrtab tid none)
      × ((x : ℕ) → s'.parent x ≡ adopt (in_slots 15 s.thrtab 1 x) (s.parent x) (s.parent p) p)
      × (s'.state ≡ s.state)
unfolding join_round
join_round-exited tid p s slot lt gone own =
    let e : is_state (s.state p) exited ≡ true = rw gone refl in
    (
      record s { parent = reparent 15 s.thrtab p 1 s.parent; thrtab = store s.thrtab tid none },
      rw (join_round, e)
          (then_done (recycle_thread tid) (λ _. pure (joined tid))
            (recycle_thread_lem tid p s slot lt gone)),
      refl,
      λ x. reparent_lem 15 s.thrtab p 1 s.parent x own,
      refl,
    )

-- The slot that the loop finds is the first free one, where one is free.
pub free_slot_lem :
    (n : ℕ) (thrtab : ℕ → Option ℕ) (tid : ℕ)
    → let found = free_slot n thrtab tid in
      (tid ≤ found)
      × (found ≤ tid + n)
      × ((k : ℕ) → tid ≤ k → k < found → is_null (thrtab k) ≡ false)
      × (found < tid + n → is_null (thrtab found) ≡ true)
unfolding free_slot
free_slot_lem zero thrtab tid = (
  omega arith,
  omega arith,
  λ k a b. absurd (omega (arith, a, b)),
  λ h. absurd (omega (arith, h)),
)
free_slot_lem (suc n) thrtab tid = elim (Bool-cases (is_null (thrtab tid))) [
  | inl e ↦ rw e (omega arith, omega arith, λ k a b. absurd (omega (arith, a, b)), λ h. e)
  | inr e ↦
      let (from, to, before, free) = free_slot_lem n thrtab (tid + 1) in
      rw e (
        omega (arith, from),
        omega (arith, to),
        λ k a b. elim (Bool-cases (tid == k)) [
          | inl h ↦ subst (λ x. is_null (thrtab x) ≡ false) (ground (arith, h)) e
          | inr h ↦ before k (ground (arith, h, a)) b
        ],
        λ h. free (omega (arith, h)),
      )
]
