-- ===== src/Paging/Spaces.antt =====
-- src/kern/memory.c: memory spaces, their tags, and the copy of a space for `process_fork`. The two tables of
-- the kernel, which the start-up fills, are parameters. What a page holds is its entries, also where it
-- holds a program's bytes.
use illinux.Prelude.{
  ℕ, zero, suc, ◌+◌, ◌-◌, ◌*◌, ◌/◌, ◌%◌, ◌^◌, ◌<◌, ◌≡◌, ap, true, false, ◌&&◌, Option, none, some,
  if◌then◌else◌, arith,
}
use illinux.Cmd.{Cmd, done, panic, pure, modify, ◌>>=◌, ◌>>◌}
use illinux.Mem.{user_start_vma, user_end_vma}
use illinux.Heap.{page_size}
use illinux.Mem.{store}
use illinux.Paging.{
  Pte, Flags, is_valid, vpn0, Paging, ptab_pte, pte_g, set_pte, memory_alloc_page, walk_pt,
}
use illinux.Paging.User.{is_user, memory_unmap_and_free_user}

-- RISCV_SATP_MODE_Sv39, the ASID and the page number of the root in their fields, which do not overlap.
abbrev pub space_mtag : ℕ → ℕ → ℕ
space_mtag asid root = 8 * 2 ^ 60 + asid * 2 ^ 44 + root

-- The page number of the root: `(mtag << 20) >> 8` is its address.
abbrev pub mtag_to_root : ℕ → ℕ
mtag_to_root mtag = mtag * 2 ^ 20 % 2 ^ 64 / 2 ^ 8 / 2 ^ 12

abbrev pub memory_space_switch : ℕ → Cmd Paging (Unit {0})
memory_space_switch mtag = modify λ s. record s { active_space_root = mtag_to_root mtag }

-- memcpy(pp, pma, PAGE_SIZE)
abbrev pub copy_page : ℕ → ℕ → Paging → Paging
copy_page pp pma s = record s { entries = store s.entries pp (s.entries pma) }

-- The end of a round of the copying loop, on the table of the new space.
unfoldable pub enter_copy : Option ℕ → ℕ → Flags → ℕ → Cmd Paging (Unit {0})
enter_copy none vma flags pp = λ s. panic
enter_copy (some table) vma flags pp =
    modify (set_pte table (vpn0 vma) (record { flags = flags; ppn = pp }))

unfoldable pub copy_user : ℕ → ℕ → Pte → Cmd Paging (Unit {0})
copy_user new_root vma entry = do
  pp ← memory_alloc_page
  modify (copy_page pp entry.ppn)
  new_entry ← walk_pt new_root vma true
  enter_copy new_entry vma entry.flags pp

-- A round of the loop: nothing is done where no user page is mapped.
unfoldable pub clone_entry : ℕ → ℕ → Option ℕ → Cmd Paging (Unit {0})
clone_entry new_root vma none s = done tt s
clone_entry new_root vma (some table) s =
    let entry = s.entries table (vpn0 vma) in
    if is_valid entry && is_user entry then copy_user new_root vma entry s else done tt s

unfoldable pub clone_page : ℕ → ℕ → Cmd Paging (Unit {0})
clone_page new_root vma s = (walk_pt s.active_space_root vma false >>= clone_entry new_root vma) s

unfoldable pub clone_pages : ℕ → ℕ → ℕ → Cmd Paging (Unit {0})
clone_pages zero new_root vma = pure tt
clone_pages (suc n) new_root vma =
    clone_page new_root vma >> clone_pages n new_root (vma + page_size)

module _ (main_pt2 main_pt1 : ℕ) where
  -- The new tables are the old ones, assigned to themselves.
  unfoldable pub memory_space_create : ℕ → Cmd Paging ℕ
  memory_space_create asid = do
    memory_space_switch (space_mtag asid main_pt2)
    pure (space_mtag asid main_pt2)

  -- The entries of the new root for the kernel.
  abbrev pub kernel_entries : ℕ → Paging → Paging
  kernel_entries new_pt2 s = set_pte new_pt2 0 (s.entries main_pt2 0) (
      set_pte new_pt2 2 (ptab_pte main_pt1 pte_g)
        (set_pte new_pt2 1 (s.entries main_pt2 1) (set_pte new_pt2 0 (s.entries main_pt2 0) s)))

  -- The ASID is not used.
  unfoldable pub memory_space_clone : ℕ → Cmd Paging ℕ
  memory_space_clone asid = do
    new_pt2 ← memory_alloc_page
    modify (kernel_entries new_pt2)
    clone_pages ((user_end_vma - user_start_vma) / page_size) (mtag_to_root (space_mtag 0 new_pt2))
        user_start_vma
    pure (space_mtag 0 new_pt2)

  unfoldable pub memory_space_reclaim : Cmd Paging (Unit {0})
  memory_space_reclaim = memory_unmap_and_free_user >> memory_space_switch (space_mtag 0 main_pt2)

  -- Every space that `memory_space_create` makes has the kernel's own root, so all of them share their user pages.
  pub memory_space_create_shared :
      (asid : ℕ) (s : Paging)
      → asid < 2 ^ 16
      → main_pt2 < 2 ^ 44
      → (mtag : ℕ) × (memory_space_create asid s
          ≡ done mtag (record s { active_space_root = main_pt2 }))
        × (mtag_to_root mtag ≡ main_pt2)
  unfolding memory_space_create
  memory_space_create_shared asid s small fits =
      let root : mtag_to_root (space_mtag asid main_pt2) ≡ main_pt2 = omega (arith, small, fits) in
      (
        space_mtag asid main_pt2,
        ap (λ (r : ℕ). done (space_mtag asid main_pt2) (record s { active_space_root = r })) root,
        root,
      )
