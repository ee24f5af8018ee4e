-- ===== src/Paging/Walk.antt =====
-- src/kern/memory.c: the walk through the page tables and the pages that it maps.
use illinux.Prelude.{
  ℕ, ◌+◌, ◌≤◌, ◌≡◌, ◌≢◌, ◌⊎◌, inl, inr, refl, ap, ◌∙◌, sym, subst, Bool, true, false, Option, none,
  some, List, [], ◌∷◌, length, arith, Bool-cases,
}
use illinux.Cmd.{done, pure, modify, ◌>>◌, then_done}
use illinux.Mem.{store, store_same, store_other}
use illinux.Thread.Queue.{has, not_eq_of_has}
use illinux.Paging.{
  Pte, is_valid, pte_v, vpn2, vpn1, Paging, set_pte, memory_alloc_page, next_table, walk_pt,
}
use illinux.Paging.Free.{IsFree, memory_alloc_page-IsFree}

-- What a step to the table behind the entry `i` of a table has done.
pub record IsNext (s : Paging) (page i : ℕ) (pages : List ℕ) (t : ℕ) (s' : Paging) (pages' : List ℕ)
    : Type 0 where
  pub valid : is_valid (s'.entries page i) ≡ true
  pub ppn : (s'.entries page i).ppn ≡ t
  pub same : (q j : ℕ) → q ≢ page → s'.entries q j ≡ s.entries q j
  pub root : s'.active_space_root ≡ s.active_space_root
  pub free : IsFree s' pages'
  pub fewer : length pages ≤ length pages' + 1
  pub sub : (q : ℕ) → has q pages ≡ false → has q pages' ≡ false
  pub origin :
      ((is_valid (s.entries page i) ≡ true) × (t ≡ (s.entries page i).ppn))
      ⊎ ((has t pages ≡ true) × (has t pages' ≡ false))

pub set_pte_at : (page i : ℕ) (e : Pte) (s : Paging) → (set_pte page i e s).entries page i ≡ e
set_pte_at page i e s =
    ap (λ f. f i) (store_same s.entries page (store (s.entries page) i e) page refl)
    ∙ store_same (s.entries page) i e i refl

pub set_pte_other :
    (page i : ℕ) (e : Pte) (s : Paging) (q j : ℕ)
    → q ≢ page
    → (set_pte page i e s).entries q j ≡ s.entries q j
set_pte_other page i e s q j ne =
    ap (λ f. f j) (store_other s.entries page (store (s.entries page) i e) q ne)

-- An entry that leads to another table.
abbrev link : ℕ → Pte
link table = record { flags = pte_v; ppn = table }

next_table_old :
    (page i : ℕ) (create : Bool) (s : Paging)
    → is_valid (s.entries page i) ≡ true
    → next_table page i create s ≡ done (some (s.entries page i).ppn) s
unfolding next_table
next_table_old page i create s e = rw (next_table, e) refl

next_table_new :
    (page i p : ℕ) (s s1 : Paging)
    → is_valid (s.entries page i) ≡ false
    → memory_alloc_page s ≡ done p s1
    → next_table page i true s ≡ done (some p) (set_pte page i (link p) s1)
unfolding next_table
next_table_new page i p s s1 e run =
    rw (next_table, e)
      (then_done memory_alloc_page
        (λ table. modify (set_pte page i (link table)) >> pure (some table)) run)

pub next_table_lem :
    (page i : ℕ) (s : Paging) (pages : List ℕ)
    → IsFree s pages
    → 1 ≤ length pages
    → (t : ℕ) × (s' : Paging) × (pages' : List ℕ) × (next_table page i true s ≡ done (some t) s')
      × IsNext s page i pages t s' pages'
next_table_lem page i s [] f le = absurd (omega (arith, le))
next_table_lem page i s (p ∷ rest) f le = elim (Bool-cases (is_valid (s.entries page i))) [
  | inl e ↦ (
    (s.entries page i).ppn,
    s,
    p ∷ rest,
    next_table_old page i true s e,
    record {
      valid = e;
      ppn = refl;
      same = λ q j ne. refl;
      root = refl;
      free = f;
      fewer = omega arith;
      sub = λ q h. h;
      origin = inl (e, refl);
    },
  )
  | inr e ↦
      let (run, f') = (memory_alloc_page-IsFree s (p ∷ rest) f).1 p rest refl in
      let s1 : Paging = record s { free_list = s.next p } in
      let new : Pte = link p in
      let at_i = set_pte_at page i new s1 in
      (
        p,
        set_pte page i new s1,
        rest,
        next_table_new page i p s s1 e run,
        record {
          valid = ap is_valid at_i;
          ppn = ap (λ (x : Pte). x.ppn) at_i;
          same = λ q j ne. set_pte_other page i new s1 q j ne;
          root = refl;
          free = record { chain = f'.chain; distinct = f'.distinct };
          fewer = omega arith;
          sub = λ q h. ground (arith, h);
          origin = inr (ground arith, f.distinct.0);
        },
      )
]

-- What the walk for an address relies on: no free page has a valid entry, none is on the way that is there
-- already, and the tables on that way are different.
pub record IsTree (s : Paging) (vma : ℕ) (pages : List ℕ) : Type 0 where
  pub free : IsFree s pages
  pub clean : (p i : ℕ) → has p pages ≡ true → is_valid (s.entries p i) ≡ false
  pub root_out : has s.active_space_root pages ≡ false
  pub level1 :
      let e = s.entries s.active_space_root (vpn2 vma) in
      is_valid e ≡ true → (e.ppn ≢ s.active_space_root) × (has e.ppn pages ≡ false)
  pub level0 :
      let t = (s.entries s.active_space_root (vpn2 vma)).ppn in
      let e = s.entries t (vpn1 vma) in
      is_valid (s.entries s.active_space_root (vpn2 vma)) ≡ true
      → is_valid e ≡ true
      → (e.ppn ≢ s.active_space_root) × (e.ppn ≢ t)

-- The tables on the way to an address.
pub record IsWay (s : Paging) (vma t1 t0 : ℕ) : Type 0 where
  pub valid2 : is_valid (s.entries s.active_space_root (vpn2 vma)) ≡ true
  pub ppn2 : (s.entries s.active_space_root (vpn2 vma)).ppn ≡ t1
  pub valid1 : is_valid (s.entries t1 (vpn1 vma)) ≡ true
  pub ppn1 : (s.entries t1 (vpn1 vma)).ppn ≡ t0

pub walk_pt_next :
    (root vma t1 : ℕ) (create : Bool) (s s1 : Paging)
    → next_table root (vpn2 vma) create s ≡ done (some t1) s1
    → walk_pt root vma create s ≡ next_table t1 (vpn1 vma) create s1
unfolding walk_pt
walk_pt_next root vma t1 create s s1 e =
    then_done (next_table root (vpn2 vma) create)
      (λ (pt1 : Option ℕ). elim pt1 [
        | none ↦ pure none
        | some table ↦ next_table table (vpn1 vma) create
      ])
      e

-- A walk that finds its way returns the last table and changes nothing.
pub walk_pt-IsWay :
    (s : Paging) (vma t1 t0 : ℕ) (create : Bool)
    → IsWay s vma t1 t0
    → walk_pt s.active_space_root vma create s ≡ done (some t0) s
walk_pt-IsWay s vma t1 t0 create w =
    walk_pt_next s.active_space_root vma t1 create s s (
      next_table_old s.active_space_root (vpn2 vma) create s w.valid2
      ∙ ap (λ t. done (some t) s) w.ppn2)
    ∙ next_table_old t1 (vpn1 vma) create s w.valid1
    ∙ ap (λ t. done (some t) s) w.ppn1

-- The first step leaves the root, for a table that is not free.
pub first_step :
    (s : Paging) (vma : ℕ) (pages : List ℕ) (t : ℕ) (s' : Paging) (pages' : List ℕ)
    → IsTree s vma pages
    → IsNext s s.active_space_root (vpn2 vma) pages t s' pages'
    → (t ≢ s.active_space_root) × (has t pages' ≡ false)
first_step s vma pages t s' pages' tree n = elim n.origin [
  | inl (v, e) ↦
      let (ne, out) = tree.level1 v in
      (λ h. ne (sym e ∙ h), n.sub t (subst (λ x. has x pages ≡ false) (sym e) out))
  | inr (i, out) ↦ ((λ h. not_eq_of_has s.active_space_root t pages tree.root_out i (sym h)), out)
]

-- The second step leads to a table that is neither.
pub second_step :
    (s : Paging) (vma : ℕ) (pages : List ℕ) (t1 : ℕ) (s1 : Paging) (pages1 : List ℕ) (t0 : ℕ)
    (s2 : Paging) (pages2 : List ℕ)
    → IsTree s vma pages
    → IsNext s s.active_space_root (vpn2 vma) pages t1 s1 pages1
    → IsNext s1 t1 (vpn1 vma) pages1 t0 s2 pages2
    → (t0 ≢ s.active_space_root) × (t0 ≢ t1)
second_step s vma pages t1 s1 pages1 t0 s2 pages2 tree n1 n2 =
    let (ne1, out1) = first_step s vma pages t1 s1 pages1 tree n1 in
    let same : s1.entries t1 (vpn1 vma) ≡ s.entries t1 (vpn1 vma) = n1.same t1 (vpn1 vma) ne1 in
    elim n2.origin [
      | inr (i, out) ↦ (
        (λ h.
            not_eq_of_has s.active_space_root t0 pages1 (n1.sub s.active_space_root tree.root_out) i
              (sym h)),
        (λ h. not_eq_of_has t1 t0 pages1 out1 i (sym h)),
      )
      | inl (v, e) ↦
          let was : is_valid (s.entries t1 (vpn1 vma)) ≡ true = ap is_valid (sym same) ∙ v in
          elim n1.origin [
            | inr (i, out) ↦
                let clash : true ≡ false = sym was ∙ tree.clean t1 (vpn1 vma) i in
                absurd (ground (arith, clash))
            | inl (v1, e1) ↦
                let old = subst (λ x. is_valid (s.entries x (vpn1 vma)) ≡ true) e1 was in
                let (ne, ne') = tree.level0 v1 old in
                let is_t0 : t0
                    ≡ (s.entries (s.entries s.active_space_root (vpn2 vma)).ppn (vpn1 vma)).ppn =
                  e ∙ ap (λ (x : Pte). x.ppn) same ∙ ap (λ x. (s.entries x (vpn1 vma)).ppn) e1 in
                ((λ h. ne (sym is_t0 ∙ h)), (λ h. ne' (sym is_t0 ∙ h ∙ e1)))
          ]
    ]
