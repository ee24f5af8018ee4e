-- ===== src/Heap.antt =====
-- src/kern/ezheap.c: the kernel heap, which never reuses a block.
pub mod Blocks
use illinux.Prelude.{
  ℕ, ◌+◌, ◌-◌, ◌*◌, ◌/◌, ◌%◌, ◌^◌, Bool, true, false, Option, none, some, ltb, leb, if◌then◌else◌,
}
use illinux.Mem.{Mem, memset}

abbrev pub page_size : ℕ
page_size = 4096

-- The static variables: the free bytes are those from `heap_start` up to `heap_end`.
pub record Heap : Type 0 where
  pub heap_start : ℕ
  pub heap_end : ℕ

-- None where the assertion fails.
unfoldable pub heap_init : ℕ → ℕ → Option Heap
heap_init start end =
    if ltb start end then some (record { heap_start = start; heap_end = end }) else none

-- The size rounded up to a multiple of 16, as a size_t.
unfoldable pub round_up : ℕ → ℕ
round_up size = (size + 15) % 2 ^ 64 / 16 * 16

-- `heap_end - heap_start` as an unsigned number.
abbrev pub room : Heap → ℕ
room h = (h.heap_end + 2 ^ 64 - h.heap_start) % 2 ^ 64

-- The block's address, or none for the panic; `new_block` is what `memory_alloc_page` returns if it is
-- called.
unfoldable pub kmalloc : ℕ → ℕ → Heap → Option (Heap × ℕ)
unfolding round_up
kmalloc new_block size h =
    let rounded = round_up size in
    if ltb page_size rounded
    then none
    else if leb rounded (room h)
    then some (record h { heap_end = h.heap_end - rounded }, h.heap_end - rounded)
    else if ltb (room h) (page_size - rounded)
    then some (
      record { heap_start = new_block; heap_end = new_block + page_size - rounded },
      new_block + page_size - rounded,
    )
    else some (h, new_block)

-- With `size` at least 1. The memory is seen from address 0 on.
unfoldable pub kcalloc : ℕ → ℕ → ℕ → Heap → Mem → Option (Heap × Mem × ℕ)
unfolding kmalloc
kcalloc new_block n size h mem =
    if ltb ((2 ^ 64 - 1) / size) n then none else elim (kmalloc new_block (n * size % 2 ^ 64) h) [
      | none ↦ none
      | some r ↦ some (r.0, memset mem r.1 0 (n * size), r.1)
    ]
