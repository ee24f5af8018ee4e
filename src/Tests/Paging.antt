-- ===== src/Tests/Paging.antt =====
-- src/kern/memory.c at concrete inputs: an empty tree and three free pages.
use illinux.Prelude.{
  ℕ, ◌*◌, ◌/◌, ◌-◌, ◌^◌, ◌≤◌, ◌<◌, ◌≡◌, refl, none, some, [], ◌∷◌, ◌==◌, if◌then◌else◌, arith,
}
use illinux.Cmd.{done, panic}
use illinux.Heap.{page_size}
use illinux.Mem.{user_start_vma, user_end_vma}
use illinux.Paging.{Paging, null_pte, memory_handle_page_fault}
use illinux.Paging.User.{memory_validate_vptr_len, memory_validate_vptr_len_refuses}
use illinux.Errno.{err, ebadfmt}
use illinux.Paging.Walk.{IsTree}
use illinux.Paging.Mapped.{IsHandled, memory_handle_page_fault-IsMapped}

abbrev empty : Paging
empty = record {
  entries = λ page i. null_pte;
  next = λ page. if page == 10 then some 11 else if page == 11 then some 12 else none;
  free_list = some 10;
  active_space_root = 1;
}

-- An address inside the first page for users.
abbrev fault : ℕ
fault = 3221225480

empty-IsTree : IsTree empty (fault / page_size * page_size) (10 ∷ 11 ∷ 12 ∷ [])
empty-IsTree = record {
  free = record { chain = (refl, (refl, (refl, refl))); distinct = (refl, (refl, (refl, tt))) };
  clean = λ p i h. refl;
  root_out = refl;
  level1 = λ h. absurd (ground (arith, h));
  level0 = λ h. absurd (ground (arith, h));
}

memory_handle_page_fault-IsMapped_example :
    (fault < user_start_vma → memory_handle_page_fault fault empty ≡ panic)
    × (user_end_vma ≤ fault
        → fault < 2 ^ 64 - page_size
        → memory_handle_page_fault fault empty ≡ panic)
    × (user_start_vma ≤ fault → fault < user_end_vma → IsHandled empty fault)
    × (2 ^ 64 - page_size ≤ fault → IsHandled empty fault)
memory_handle_page_fault-IsMapped_example =
    memory_handle_page_fault-IsMapped empty fault (10 ∷ 11 ∷ 12 ∷ []) (omega arith) empty-IsTree
      (omega arith)

memory_validate_vptr_len_refuses_example :
    memory_validate_vptr_len 1 fault 100 18 empty ≡ done (err ebadfmt) empty
memory_validate_vptr_len_refuses_example =
    memory_validate_vptr_len_refuses 0 fault 100 18 empty (omega arith) (omega arith)
