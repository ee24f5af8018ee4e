-- ===== src/Paging.antt =====
-- src/kern/memory.c: the list of free pages and the three levels of page tables. A page is its number; the
-- flags of an entry are the function from the number of a bit. The fence and the registers are left out.
pub mod Free
pub mod Walk
pub mod Mapped
pub mod User
pub mod Spaces
use illinux.Prelude.{
  ℕ, zero, suc, ◌+◌, ◌-◌, ◌*◌, ◌/◌, ◌%◌, ◌^◌, Bool, true, false, not, ◌||◌, ◌&&◌, Option, none,
  some, ltb, leb, ◌==◌, if◌then◌else◌,
}
use illinux.Cmd.{Cmd, Run, done, panic, blocked, timeout, pure, get, modify, ◌>>=◌, ◌>>◌}
use illinux.Mem.{store, user_start_vma, user_end_vma}
use illinux.Heap.{page_size}

abbrev pub Flags : Type 0
Flags = ℕ → Bool

abbrev pub no_flags : Flags
no_flags bit = false

infixr 30 ◌∪◌
abbrev pub ◌∪◌ : Flags → Flags → Flags
◌∪◌ f g bit = f bit || g bit

abbrev pub one_flag : ℕ → Flags
one_flag n bit = n == bit

abbrev pub pte_v : Flags
pte_v = one_flag 0

abbrev pub pte_r : Flags
pte_r = one_flag 1

abbrev pub pte_w : Flags
pte_w = one_flag 2

abbrev pub pte_x : Flags
pte_x = one_flag 3

abbrev pub pte_u : Flags
pte_u = one_flag 4

abbrev pub pte_g : Flags
pte_g = one_flag 5

abbrev pub pte_a : Flags
pte_a = one_flag 6

abbrev pub pte_d : Flags
pte_d = one_flag 7

pub record Pte : Type 0 where
  pub flags : Flags
  pub ppn : ℕ

-- flags & PTE_V
abbrev pub is_valid : Pte → Bool
is_valid e = e.flags 0

abbrev pub vpn2 : ℕ → ℕ
vpn2 vma = vma / 2 ^ 30 % 512

abbrev pub vpn1 : ℕ → ℕ
vpn1 vma = vma / 2 ^ 21 % 512

abbrev pub vpn0 : ℕ → ℕ
vpn0 vma = vma / 2 ^ 12 % 512

abbrev pub leaf_pte : ℕ → Flags → Pte
leaf_pte ppn rwxug_flags = record { flags = rwxug_flags ∪ (pte_a ∪ (pte_d ∪ pte_v)); ppn = ppn }

abbrev pub ptab_pte : ℕ → Flags → Pte
ptab_pte ppn g_flag = record { flags = g_flag ∪ pte_v; ppn = ppn }

abbrev pub null_pte : Pte
null_pte = record { flags = no_flags; ppn = 0 }

-- What each page holds where it is a page table, `next` where it is free, the head of the list of free
-- pages, and the table that the processor starts from.
pub record Paging : Type 0 where
  pub entries : ℕ → ℕ → Pte
  pub next : ℕ → Option ℕ
  pub free_list : Option ℕ
  pub active_space_root : ℕ

abbrev pub set_pte : ℕ → ℕ → Pte → Paging → Paging
set_pte page i e s = record s { entries = store s.entries page (store (s.entries page) i e) }

unfoldable pub memory_alloc_page : Cmd Paging ℕ
memory_alloc_page s = elim s.free_list [
  | none ↦ panic
  | some page ↦ done page (record s { free_list = s.next page })
]

unfoldable pub memory_free_page : ℕ → Cmd Paging (Unit {0})
memory_free_page pp s =
    done tt (record s { next = store s.next pp s.free_list; free_list = some pp })

-- The next table on the way, from the entry `i` of a table; a new one where there is none and `create` is
-- given. The new page keeps what it held.
unfoldable pub next_table : ℕ → ℕ → Bool → Cmd Paging (Option ℕ)
next_table page i create = do
  s ← get
  let e = s.entries page i
  if is_valid e then pure (some e.ppn) else if not create then pure none else (do
    table ← memory_alloc_page
    modify (set_pte page i (record { flags = pte_v; ppn = table }))
    pure (some table))

-- The table of the last level.
unfoldable pub walk_pt : ℕ → ℕ → Bool → Cmd Paging (Option ℕ)
walk_pt root vma create = do
  pt1 ← next_table root (vpn2 vma) create
  elim pt1 [ none ↦ pure none | some table ↦ next_table table (vpn1 vma) create ]

-- The number of the page instead of its address.
unfoldable pub map_entry : ℕ → ℕ → Flags → Cmd Paging ℕ
map_entry pt0 vma rwxug_flags = do
  page ← memory_alloc_page
  s ← get
  let old = s.entries pt0 (vpn0 vma)
  modify (
      set_pte pt0 (vpn0 vma)
        (record { flags = old.flags ∪ (pte_v ∪ (rwxug_flags ∪ (pte_a ∪ pte_d))); ppn = page }))
  pure page

unfoldable pub memory_alloc_and_map_page : ℕ → Flags → Cmd Paging ℕ
memory_alloc_and_map_page vma rwxug_flags = do
  s ← get
  pt0 ← walk_pt s.active_space_root vma true
  elim pt0 [ none ↦ λ _. panic | some table ↦ map_entry table vma rwxug_flags ]

-- The loop over the pages of a range.
unfoldable pub map_pages : ℕ → ℕ → Flags → Cmd Paging (Unit {0})
map_pages zero vma rwxug_flags = pure tt
map_pages (suc n) vma rwxug_flags = do
  page ← memory_alloc_and_map_page vma rwxug_flags
  map_pages n ((vma + page_size) % 2 ^ 64) rwxug_flags

unfoldable pub memory_alloc_and_map_range : ℕ → ℕ → Flags → Cmd Paging ℕ
memory_alloc_and_map_range vma size rwxug_flags =
    if not (size % page_size == 0)
    then (λ _. panic)
    else (do map_pages (size / page_size) vma rwxug_flags; pure vma)

-- A page that is not mapped has no table: the code writes through a null pointer.
unfoldable pub memory_set_page_flags : ℕ → Flags → Cmd Paging (Unit {0})
memory_set_page_flags vma rwxug_flags = do
  s ← get
  pt0 ← walk_pt s.active_space_root vma false
  elim pt0 [
    | none ↦ λ _. panic
    | some table ↦ modify λ s.
        set_pte table (vpn0 vma)
          (record {
            flags = rwxug_flags ∪ (pte_v ∪ (pte_a ∪ pte_d));
            ppn = (s.entries table (vpn0 vma)).ppn;
          })
          s
  ]

unfoldable pub set_pages_flags : ℕ → ℕ → Flags → Cmd Paging (Unit {0})
set_pages_flags zero vma rwxug_flags = pure tt
set_pages_flags (suc n) vma rwxug_flags = do
  memory_set_page_flags vma rwxug_flags
  set_pages_flags n ((vma + page_size) % 2 ^ 64) rwxug_flags

unfoldable pub memory_set_range_flags : ℕ → ℕ → Flags → Cmd Paging (Unit {0})
memory_set_range_flags vma size rwxug_flags =
    if not (size % page_size == 0)
    then (λ _. panic)
    else set_pages_flags (size / page_size) vma rwxug_flags

abbrev pub out_of_bounds : ℕ → Bool
out_of_bounds aligned_vptr =
    ltb aligned_vptr user_start_vma || ltb user_end_vma ((aligned_vptr + page_size) % 2 ^ 64)

unfoldable pub memory_handle_page_fault : ℕ → Cmd Paging (Unit {0})
memory_handle_page_fault vptr = do
  let aligned_vptr = vptr / page_size * page_size
  if out_of_bounds aligned_vptr
      then (λ _. panic)
      else (do page ← memory_alloc_and_map_page aligned_vptr (pte_r ∪ (pte_w ∪ pte_u)); pure tt)
