-- ===== src/Paging/User.antt =====
-- src/kern/memory.c: the pages of a program that ends, and the validation of the pointers that it passes.
use illinux.Prelude.{
  ℕ, zero, suc, ◌+◌, ◌-◌, ◌*◌, ◌/◌, ◌%◌, ◌^◌, ◌<◌, ◌≡◌, refl, ◌∙◌, Bool, false, not, ◌||◌, ◌&&◌,
  Option, none, some, ◌==◌, if◌then◌else◌, arith, inl, inr, Bool-cases,
}
use illinux.Cmd.{Cmd, done, timeout, pure, get, ◌>>=◌, ◌>>◌, then_done}
use illinux.Errno.{Result, ok, err, ebadfmt}
use illinux.Heap.{page_size}
use illinux.Paging.{Pte, Flags, is_valid, vpn2, vpn1, Paging, memory_free_page, next_table, walk_pt}

-- flags & PTE_U
abbrev pub is_user : Pte → Bool
is_user e = e.flags 4

-- An entry that is valid and neither read, written nor executed leads to another table.
abbrev pub is_table : Pte → Bool
is_table e = is_valid e && not (e.flags 1 || e.flags 2 || e.flags 3)

-- The loop over the entries of a table, with the number of those that are left; `walk` is the call for a
-- table below.
unfoldable pub free_entries : (ℕ → Cmd Paging (Unit {0})) → ℕ → ℕ → ℕ → Cmd Paging (Unit {0})
free_entries walk zero root i = pure tt
free_entries walk (suc n) root i = do
  s ← get
  let e = s.entries root i
  if is_user e
      then (do if is_table e then walk e.ppn else pure tt; memory_free_page e.ppn)
      else pure tt
  free_entries walk n root (i + 1)

-- The recursion on fuel; a tree of page tables has three levels.
unfoldable pub walk_and_free_user : ℕ → ℕ → Cmd Paging (Unit {0})
walk_and_free_user zero root = λ s. timeout
walk_and_free_user (suc fuel) root = free_entries (walk_and_free_user fuel) 512 root 0

unfoldable pub memory_unmap_and_free_user : Cmd Paging (Unit {0})
memory_unmap_and_free_user = do s ← get; walk_and_free_user 3 s.active_space_root

-- flags != 0
abbrev pub any_flag : Flags → Bool
any_flag f = f 0 || f 1 || f 2 || f 3 || f 4 || f 5 || f 6 || f 7

-- The value of `flags && rwxug_flags`.
abbrev pub both_nonzero : Flags → ℕ → ℕ
both_nonzero f rwxug_flags = if any_flag f && not (rwxug_flags == 0) then 1 else 0

-- The tests on one page: they look at the first entry of its table.
unfoldable pub validate_page : Option ℕ → ℕ → Cmd Paging (Result ℕ)
validate_page none rwxug_flags = pure (err ebadfmt)
validate_page (some table) rwxug_flags = do
  s ← get
  let page = s.entries table 0
  if not (any_flag page.flags)
      then pure (err ebadfmt)
      else if not (both_nonzero page.flags rwxug_flags == rwxug_flags)
      then pure (err ebadfmt)
      else pure (ok 0)

abbrev pub next_vp : ℕ → ℕ
next_vp vp = (vp / page_size * page_size + page_size) % 2 ^ 64

abbrev pub next_len : ℕ → ℕ → ℕ
next_len vp len = (len + 2 ^ 64 - (page_size - (vp - vp / page_size * page_size))) % 2 ^ 64

-- The loop on fuel; the length, an unsigned long, wraps around.
unfoldable pub memory_validate_vptr_len : ℕ → ℕ → ℕ → ℕ → Cmd Paging (Result ℕ)
memory_validate_vptr_len zero vp len rwxug_flags = λ s. timeout
memory_validate_vptr_len (suc fuel) vp zero rwxug_flags = pure (ok 0)
memory_validate_vptr_len (suc fuel) vp (suc left) rwxug_flags = do
  s ← get
  let aligned_vp = vp / page_size * page_size
  page ← walk_pt s.active_space_root aligned_vp false
  result ← validate_page page rwxug_flags
  elim result [
    | err e ↦ pure (err e)
    | ok k ↦ memory_validate_vptr_len fuel (next_vp vp) (next_len vp (suc left)) rwxug_flags
  ]

free_entries_none :
    (walk : ℕ → Cmd Paging (Unit {0})) (n root i : ℕ) (s : Paging)
    → ((j : ℕ) → is_user (s.entries root j) ≡ false)
    → free_entries walk n root i s ≡ done tt s
unfolding free_entries
free_entries_none walk zero root i s all = refl
free_entries_none walk (suc n) root i s all =
    let off = all i in rw (free_entries, off) (free_entries_none walk n root (i + 1) s all)

-- Where no entry of the root has PTE_U, no page is given back: an entry for a table is made with PTE_V
-- alone.
pub memory_unmap_and_free_user_none :
    (s : Paging)
    → ((j : ℕ) → is_user (s.entries s.active_space_root j) ≡ false)
    → memory_unmap_and_free_user s ≡ done tt s
unfolding memory_unmap_and_free_user walk_and_free_user
memory_unmap_and_free_user_none s all =
    free_entries_none (walk_and_free_user 2) 512 s.active_space_root 0 s all

validate_page_refuses :
    (o : Option ℕ) (rwxug_flags : ℕ) (s : Paging)
    → 1 < rwxug_flags
    → validate_page o rwxug_flags s ≡ done (err ebadfmt) s
unfolding validate_page
validate_page_refuses none rwxug_flags s lt = refl
validate_page_refuses (some table) rwxug_flags s lt =
    elim (Bool-cases (any_flag (s.entries table 0).flags)) [
      | inr e ↦ rw (validate_page, e) refl
      | inl e ↦
          let nonzero : (rwxug_flags == 0) ≡ false = ground (arith, lt) in
          let other : (1 == rwxug_flags) ≡ false = ground (arith, lt) in
          rw (validate_page, e, nonzero, other) refl
    ]

next_table_stays :
    (page i : ℕ) (s : Paging) → (o : Option ℕ) × (next_table page i false s ≡ done o s)
unfolding next_table
next_table_stays page i s = elim (Bool-cases (is_valid (s.entries page i))) [
  | inl e ↦ (some (s.entries page i).ppn, rw (next_table, e) refl)
  | inr e ↦ (none, rw (next_table, e) refl)
]

abbrev second : ℕ → Option ℕ → Cmd Paging (Option ℕ)
second vma pt1 = elim pt1 [ none ↦ pure none | some table ↦ next_table table (vpn1 vma) false ]

second_stays :
    (vma : ℕ) (pt1 : Option ℕ) (s : Paging) → (o : Option ℕ) × (second vma pt1 s ≡ done o s)
second_stays vma none s = (none, refl)
second_stays vma (some table) s = next_table_stays table (vpn1 vma) s

-- A walk that creates nothing changes nothing.
walk_pt_stays : (root vma : ℕ) (s : Paging) → (o : Option ℕ) × (walk_pt root vma false s ≡ done o s)
unfolding walk_pt
walk_pt_stays root vma s =
    let (o1, run1) = next_table_stays root (vpn2 vma) s in
    let (o, run) = second_stays vma o1 s in
    (o, then_done (next_table root (vpn2 vma) false) (second vma) run1 ∙ run)

abbrev validate_rest : ℕ → ℕ → ℕ → ℕ → Result ℕ → Cmd Paging (Result ℕ)
validate_rest fuel vp left rwxug_flags result = elim result [
  | err e ↦ pure (err e)
  | ok k ↦ memory_validate_vptr_len fuel (next_vp vp) (next_len vp (suc left)) rwxug_flags
]

abbrev validate_next : ℕ → ℕ → ℕ → ℕ → Option ℕ → Cmd Paging (Result ℕ)
validate_next fuel vp left rwxug_flags page =
    validate_page page rwxug_flags >>= validate_rest fuel vp left rwxug_flags

-- For a range of at least one byte, any mask of more than the lowest flag is refused, however the pages are
-- mapped: the code joins the flags of the page and the mask by `&&` and compares the truth value with
-- the mask.
pub memory_validate_vptr_len_refuses :
    (fuel vp len rwxug_flags : ℕ) (s : Paging)
    → 0 < len
    → 1 < rwxug_flags
    → memory_validate_vptr_len (suc fuel) vp len rwxug_flags s ≡ done (err ebadfmt) s
unfolding memory_validate_vptr_len
memory_validate_vptr_len_refuses fuel vp zero rwxug_flags s pos lt = absurd (omega (arith, pos))
memory_validate_vptr_len_refuses fuel vp (suc left) rwxug_flags s pos lt =
    let (o, run) = walk_pt_stays s.active_space_root (vp / page_size * page_size) s in
    then_done (walk_pt s.active_space_root (vp / page_size * page_size) false)
      (validate_next fuel vp left rwxug_flags) run
    ∙ then_done (validate_page o rwxug_flags) (validate_rest fuel vp left rwxug_flags)
        (validate_page_refuses o rwxug_flags s lt)
