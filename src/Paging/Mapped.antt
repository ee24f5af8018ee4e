-- ===== src/Paging/Mapped.antt =====
-- src/kern/memory.c: pages that are mapped.
use illinux.Prelude.{
  ℕ, ◌+◌, ◌*◌, ◌/◌, ◌-◌, ◌^◌, ◌≤◌, ◌<◌, ◌≡◌, ◌≢◌, refl, ap, ◌∙◌, sym, true, false, Option, none,
  some, List, [], ◌∷◌, length, arith,
}
use illinux.Cmd.{done, panic, pure, then_done}
use illinux.Heap.{page_size}
use illinux.Mem.{user_start_vma, user_end_vma}
use illinux.Thread.Queue.{has}
use illinux.Paging.{
  Pte, Flags, ◌∪◌, is_valid, pte_v, pte_a, pte_d, vpn2, vpn1, vpn0, Paging, set_pte,
  memory_alloc_page, walk_pt, map_entry, memory_alloc_and_map_page, memory_handle_page_fault,
  out_of_bounds, pte_r, pte_w, pte_u,
}
use illinux.Paging.Free.{IsFree, memory_alloc_page-IsFree}
use illinux.Paging.Walk.{
  IsTree, IsWay, set_pte_at, set_pte_other, next_table_lem, walk_pt_next, walk_pt-IsWay, first_step,
  second_step,
}

-- What a walk that creates its tables has done.
record IsWalked (s : Paging) (vma : ℕ) (pages : List ℕ) (t1 t0 : ℕ) (s' : Paging) (pages' : List ℕ)
    : Type 0 where
  pub way : IsWay s' vma t1 t0
  pub root : s'.active_space_root ≡ s.active_space_root
  pub off_root : t0 ≢ s.active_space_root
  pub off_t1 : t0 ≢ t1
  pub free : IsFree s' pages'
  pub fewer : length pages ≤ length pages' + 2
  pub sub : (q : ℕ) → has q pages ≡ false → has q pages' ≡ false

walk_pt_create :
    (s : Paging) (vma : ℕ) (pages : List ℕ)
    → IsTree s vma pages
    → 2 ≤ length pages
    → (t1 t0 : ℕ) × (s' : Paging) × (pages' : List ℕ) × (walk_pt s.active_space_root vma true s
        ≡ done (some t0) s')
      × IsWalked s vma pages t1 t0 s' pages'
walk_pt_create s vma pages tree le =
    let root = s.active_space_root in
    let (t1, s1, pages1, run1, n1) =
      next_table_lem root (vpn2 vma) s pages tree.free (omega (arith, le)) in
    let (t0, s2, pages2, run2, n2) =
      next_table_lem t1 (vpn1 vma) s1 pages1 n1.free (omega (arith, le, n1.fewer)) in
    let (ne1, out1) = first_step s vma pages t1 s1 pages1 tree n1 in
    let (off_root, off_t1) = second_step s vma pages t1 s1 pages1 t0 s2 pages2 tree n1 n2 in
    let same_root : s2.active_space_root ≡ root = n2.root ∙ n1.root in
    let kept : s2.entries s2.active_space_root (vpn2 vma) ≡ s1.entries root (vpn2 vma) =
      ap (λ x. s2.entries x (vpn2 vma)) same_root ∙ n2.same root (vpn2 vma) (λ h. ne1 (sym h)) in
    (
      t1,
      t0,
      s2,
      pages2,
      walk_pt_next root vma t1 true s s1 run1 ∙ run2,
      record {
        way = record {
          valid2 = ap is_valid kept ∙ n1.valid;
          ppn2 = ap (λ (x : Pte). x.ppn) kept ∙ n1.ppn;
          valid1 = n2.valid;
          ppn1 = n2.ppn;
        };
        root = same_root;
        off_root = off_root;
        off_t1 = off_t1;
        free = n2.free;
        fewer = omega (arith, n1.fewer, n2.fewer);
        sub = λ q h. n2.sub q (n1.sub q h);
      },
    )

abbrev mapped_pte : Pte → Flags → ℕ → Pte
mapped_pte old rwxug_flags page = record {
  flags = old.flags ∪ (pte_v ∪ (rwxug_flags ∪ (pte_a ∪ pte_d)));
  ppn = page;
}

map_entry_lem :
    (pt0 vma p : ℕ) (rwxug_flags : Flags) (s s1 : Paging)
    → memory_alloc_page s ≡ done p s1
    → map_entry pt0 vma rwxug_flags s
      ≡ done p (set_pte pt0 (vpn0 vma) (mapped_pte (s1.entries pt0 (vpn0 vma)) rwxug_flags p) s1)
unfolding map_entry
map_entry_lem pt0 vma p rwxug_flags s s1 run =
    then_done memory_alloc_page
      (λ (page : ℕ) (s2 : Paging).
        done page
          (set_pte pt0 (vpn0 vma) (mapped_pte (s2.entries pt0 (vpn0 vma)) rwxug_flags page) s2))
      run

-- The address is mapped to the page with at least these flags.
pub record IsMapped (s : Paging) (vma page : ℕ) (rwxug_flags : Flags) : Type 0 where
  pub table : ℕ
  pub walk : walk_pt s.active_space_root vma false s ≡ done (some table) s
  pub valid : is_valid (s.entries table (vpn0 vma)) ≡ true
  pub ppn : (s.entries table (vpn0 vma)).ppn ≡ page
  pub flags : (bit : ℕ) → rwxug_flags bit ≡ true → (s.entries table (vpn0 vma)).flags bit ≡ true

alloc_and_map_walks :
    (vma t0 : ℕ) (rwxug_flags : Flags) (s s1 : Paging)
    → walk_pt s.active_space_root vma true s ≡ done (some t0) s1
    → memory_alloc_and_map_page vma rwxug_flags s ≡ map_entry t0 vma rwxug_flags s1
unfolding memory_alloc_and_map_page
alloc_and_map_walks vma t0 rwxug_flags s s1 e =
    then_done (walk_pt s.active_space_root vma true)
      (λ (pt0 : Option ℕ). elim pt0 [
        | none ↦ (λ _. panic)
        | some table ↦ map_entry table vma rwxug_flags
      ])
      e

first_page : (pages : List ℕ) → 1 ≤ length pages → (p : ℕ) × (rest : List ℕ) × (pages ≡ p ∷ rest)
first_page [] le = absurd (omega (arith, le))
first_page (p ∷ rest) le = (p, rest, refl)

-- Where three pages are free and no free page has a valid entry, `memory_alloc_and_map_page` gives a free
-- page to the address: a walk finds its entry from then on, valid, with the page and with at least the
-- flags that were asked for.
pub memory_alloc_and_map_page-IsMapped :
    (s : Paging) (vma : ℕ) (rwxug_flags : Flags) (pages : List ℕ)
    → IsTree s vma pages
    → 3 ≤ length pages
    → (page : ℕ) × (s' : Paging) × (memory_alloc_and_map_page vma rwxug_flags s ≡ done page s')
      × IsMapped s' vma page rwxug_flags
memory_alloc_and_map_page-IsMapped s vma rwxug_flags pages tree le =
    let (t1, t0, s1, pages1, run, w) = walk_pt_create s vma pages tree (omega (arith, le)) in
    let (page, rest, some_left) = first_page pages1 (omega (arith, le, w.fewer)) in
    let (run2, free2) = (memory_alloc_page-IsFree s1 pages1 w.free).1 page rest some_left in
    let s2 : Paging = record s1 { free_list = s1.next page } in
    let new = mapped_pte (s2.entries t0 (vpn0 vma)) rwxug_flags page in
    let s3 = set_pte t0 (vpn0 vma) new s2 in
    let at_vma : s3.entries t0 (vpn0 vma) ≡ new = set_pte_at t0 (vpn0 vma) new s2 in
    let kept : (q j : ℕ) → q ≢ t0 → s3.entries q j ≡ s1.entries q j =
      λ q j ne. set_pte_other t0 (vpn0 vma) new s2 q j ne in
    let root2 : s3.entries s3.active_space_root (vpn2 vma)
        ≡ s1.entries s1.active_space_root (vpn2 vma) =
      kept s1.active_space_root (vpn2 vma) (λ h. w.off_root (sym h ∙ w.root)) in
    let level1 : s3.entries t1 (vpn1 vma) ≡ s1.entries t1 (vpn1 vma) =
      kept t1 (vpn1 vma) (λ h. w.off_t1 (sym h)) in
    (
      page,
      s3,
      alloc_and_map_walks vma t0 rwxug_flags s s1 run
          ∙ map_entry_lem t0 vma page rwxug_flags s1 s2 run2,
      record {
        table = t0;
        walk = walk_pt-IsWay s3 vma t1 t0 false (record {
          valid2 = ap is_valid root2 ∙ w.way.valid2;
          ppn2 = ap (λ (x : Pte). x.ppn) root2 ∙ w.way.ppn2;
          valid1 = ap is_valid level1 ∙ w.way.valid1;
          ppn1 = ap (λ (x : Pte). x.ppn) level1 ∙ w.way.ppn1;
        });
        valid = ap is_valid at_vma ∙ ground arith;
        ppn = ap (λ (x : Pte). x.ppn) at_vma;
        flags = λ bit h. ap (λ (x : Pte). x.flags bit) at_vma ∙ ground (arith, h);
      },
    )

fault_maps :
    (vptr page : ℕ) (s s' : Paging)
    → out_of_bounds (vptr / page_size * page_size) ≡ false
    → memory_alloc_and_map_page (vptr / page_size * page_size) (pte_r ∪ (pte_w ∪ pte_u)) s
      ≡ done page s'
    → memory_handle_page_fault vptr s ≡ done tt s'
unfolding memory_handle_page_fault
fault_maps vptr page s s' inside run =
    rw (memory_handle_page_fault, inside)
      (then_done
        (memory_alloc_and_map_page (vptr / page_size * page_size) (pte_r ∪ (pte_w ∪ pte_u)))
        (λ _. pure tt) run)

-- The fault returns, and the page of its address is mapped for the user, to be read and written.
abbrev pub IsHandled : Paging → ℕ → Type 0
IsHandled s vptr =
    (page : ℕ) × (s' : Paging) × (memory_handle_page_fault vptr s ≡ done tt s')
    × IsMapped s' (vptr / page_size * page_size) page (pte_r ∪ (pte_w ∪ pte_u))

fault-IsHandled :
    (s : Paging) (vptr : ℕ) (pages : List ℕ)
    → IsTree s (vptr / page_size * page_size) pages
    → 3 ≤ length pages
    → out_of_bounds (vptr / page_size * page_size) ≡ false
    → IsHandled s vptr
fault-IsHandled s vptr pages tree le inside =
    let (page, s', run, mapped) =
      memory_alloc_and_map_page-IsMapped s (vptr / page_size * page_size) (pte_r ∪ (pte_w ∪ pte_u))
        pages tree le in
    (page, s', fault_maps vptr page s s' inside run, mapped)

-- Where three pages are free and no free page has a valid entry, a page fault at an address of 64 bits
-- that is below the range for users panics, and so does one above it, except on the last page of all:
-- the end of that page wraps around to 0. A fault in the range, or on the last page of all, maps the page
-- of the address for the user, to be read and written.
pub memory_handle_page_fault-IsMapped :
    (s : Paging) (vptr : ℕ) (pages : List ℕ)
    → vptr < 2 ^ 64
    → IsTree s (vptr / page_size * page_size) pages
    → 3 ≤ length pages
    → (vptr < user_start_vma → memory_handle_page_fault vptr s ≡ panic)
      × (user_end_vma ≤ vptr → vptr < 2 ^ 64 - page_size → memory_handle_page_fault vptr s ≡ panic)
      × (user_start_vma ≤ vptr → vptr < user_end_vma → IsHandled s vptr)
      × (2 ^ 64 - page_size ≤ vptr → IsHandled s vptr)
unfolding memory_handle_page_fault
memory_handle_page_fault-IsMapped s vptr pages top tree le = (
  λ low.
      let out : out_of_bounds (vptr / page_size * page_size) ≡ true = ground (arith, low) in
      rw (memory_handle_page_fault, out) refl,
  λ above below.
      let out : out_of_bounds (vptr / page_size * page_size) ≡ true =
        ground (arith, above, below) in
      rw (memory_handle_page_fault, out) refl,
  λ lo hi. fault-IsHandled s vptr pages tree le (ground (arith, lo, hi)),
  λ last. fault-IsHandled s vptr pages tree le (ground (arith, last, top)),
)
