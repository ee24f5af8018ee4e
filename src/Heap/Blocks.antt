-- ===== src/Heap/Blocks.antt =====
-- src/kern/ezheap.c: the blocks that the heap gives out.
use illinux.Prelude.{
  ℕ, ◌+◌, ◌-◌, ◌%◌, ◌^◌, ◌≤◌, ◌<◌, ◌≡◌, refl, false, some, none, ltb, leb, arith, ◌⊎◌, inl, inr,
  Bool-cases,
}
use illinux.Heap.{Heap, page_size, room, round_up, kmalloc}

pub record IsHeap (h : Heap) : Type 0 where
  pub ordered : h.heap_start ≤ h.heap_end
  pub top : h.heap_end < 2 ^ 64
  pub aligned : h.heap_end % 16 ≡ 0

-- An address of free memory: one of the heap's free bytes, or one of the page that the memory manager
-- would give out next.
abbrev pub IsFree : ℕ → Heap → ℕ → Type 0
IsFree new_block h a =
    ((h.heap_start ≤ a) × (a < h.heap_end)) ⊎ ((new_block ≤ a) × (a < new_block + page_size))

-- What an allocation of `size` bytes has done.
pub record IsAllocated (new_block size : ℕ) (h h' : Heap) (p : ℕ) : Type 0 where
  pub heap : IsHeap h'
  pub block_aligned : p % 16 ≡ 0
  pub was_free : (a : ℕ) → p ≤ a → a < p + size → IsFree new_block h a
  pub not_free : (a : ℕ) → p ≤ a → a < p + size → (h'.heap_start ≤ a) × (a < h'.heap_end) → ⊥
  pub shrinks : (a : ℕ) → h'.heap_start ≤ a → a < h'.heap_end → IsFree new_block h a

round_up_lem :
    (size : ℕ)
    → size ≤ page_size
    → (size ≤ round_up size) × (round_up size ≤ page_size) × (round_up size % 16 ≡ 0)
unfolding round_up
round_up_lem size le = (omega arith, omega arith, omega arith)

module _ (new_block size rounded : ℕ) (h : Heap) (v : IsHeap h)
    (page_aligned : new_block % 4096 ≡ 0) (page_top : new_block + page_size < 2 ^ 64)
    (apart : (a : ℕ)
      → new_block ≤ a
      → a < new_block + page_size
      → (h.heap_start ≤ a) × (a < h.heap_end)
      → ⊥)
    (size_le : size ≤ rounded) (in_page : rounded ≤ page_size) (multiple : rounded % 16 ≡ 0) where
  from_heap :
      rounded ≤ h.heap_end - h.heap_start
      → IsAllocated new_block size h
          (record h { heap_end = h.heap_end - rounded })
          (h.heap_end - rounded)
  from_heap fits = record {
    heap = record {
      ordered = omega (arith, v.ordered);
      top = omega (arith, v.top);
      aligned = omega (arith, v.aligned, v.ordered);
    };
    block_aligned = omega (arith, v.aligned, v.ordered);
    was_free = λ a lo hi. inl (omega (arith, v.ordered), omega (arith, v.ordered));
    not_free = λ a lo hi free. omega (arith, free.1);
    shrinks = λ a lo hi. inl (lo, omega arith);
  }

  from_page :
      IsAllocated new_block size h
        (record { heap_start = new_block; heap_end = new_block + page_size - rounded })
        (new_block + page_size - rounded)
  from_page = record {
    heap = record { ordered = omega arith; top = omega arith; aligned = omega arith };
    block_aligned = omega arith;
    was_free = λ a lo hi. inr (omega arith, omega arith);
    not_free = λ a lo hi free. omega (arith, free.1);
    shrinks = λ a lo hi. inr (lo, omega arith);
  }

  whole_page : IsAllocated new_block size h h new_block
  whole_page = record {
    heap = v;
    block_aligned = omega arith;
    was_free = λ a lo hi. inr (lo, omega arith);
    not_free = λ a lo hi free. apart a lo (omega arith) free;
    shrinks = λ a lo hi. inl (lo, hi);
  }

-- Where the heap's free area is well formed and aligned and the next page is aligned and apart from it,
-- `kmalloc` of at most a page returns a 16-byte aligned block whose bytes were free and are free no
-- more, all bytes that are free afterwards were free before, and the free area is well formed again.
pub kmalloc-IsAllocated :
    (new_block size : ℕ) (h : Heap)
    → IsHeap h
    → new_block % 4096 ≡ 0
    → new_block + page_size < 2 ^ 64
    → ((a : ℕ)
        → new_block ≤ a
        → a < new_block + page_size
        → (h.heap_start ≤ a) × (a < h.heap_end)
        → ⊥)
    → size ≤ page_size
    → (h' : Heap) × (p : ℕ) × (kmalloc new_block size h ≡ some (h', p))
      × IsAllocated new_block size h h' p
unfolding kmalloc
kmalloc-IsAllocated new_block size h v page_aligned page_top apart size_le =
    let (larger, in_page, multiple) = round_up_lem size size_le in
    let rounded : ℕ = round_up size in
    let not_large : ltb page_size rounded ≡ false = ground arith in
    let room_is : room h ≡ h.heap_end - h.heap_start = omega (arith, v.ordered, v.top) in
    elim (Bool-cases (leb rounded (room h))) [
      | inl fits ↦ (
        record h { heap_end = h.heap_end - rounded },
        h.heap_end - rounded,
        rw (kmalloc, not_large, fits) refl,
        from_heap new_block size rounded h v page_aligned page_top apart larger in_page multiple
            (ground (arith, room_is)),
      )
      | inr tight ↦ elim (Bool-cases (ltb (room h) (page_size - rounded))) [
        | inl switch ↦ (
          record { heap_start = new_block; heap_end = new_block + page_size - rounded },
          new_block + page_size - rounded,
          rw (kmalloc, not_large, tight, switch) refl,
          from_page new_block size rounded h v page_aligned page_top apart larger in_page multiple,
        )
        | inr stay ↦ (
          h,
          new_block,
          rw (kmalloc, not_large, tight, stay) refl,
          whole_page new_block size rounded h v page_aligned page_top apart larger in_page multiple,
        )
      ]
    ]

-- A request for at most a page is served, one for more panics.
pub kmalloc_page :
    (new_block size : ℕ) (h : Heap)
    → size ≤ page_size
    → (r : Heap × ℕ) × (kmalloc new_block size h ≡ some r)
unfolding kmalloc
kmalloc_page new_block size h le =
    let rounded : ℕ = round_up size in
    let in_page = (round_up_lem size le).1 in
    let not_large : ltb page_size rounded ≡ false = ground arith in
    elim (Bool-cases (leb rounded (room h))) [
      | inl fits ↦ (
        (record h { heap_end = h.heap_end - rounded }, h.heap_end - rounded),
        rw (kmalloc, not_large, fits) refl,
      )
      | inr tight ↦ elim (Bool-cases (ltb (room h) (page_size - rounded))) [
        | inl switch ↦ (
          (
            record { heap_start = new_block; heap_end = new_block + page_size - rounded },
            new_block + page_size - rounded,
          ),
          rw (kmalloc, not_large, tight, switch) refl,
        )
        | inr stay ↦ ((h, new_block), rw (kmalloc, not_large, tight, stay) refl)
      ]
    ]

pub kmalloc_large :
    (new_block size : ℕ) (h : Heap)
    → page_size < size
    → size + 15 < 2 ^ 64
    → kmalloc new_block size h ≡ none
unfolding kmalloc round_up
kmalloc_large new_block size h lt top = ground (arith, lt, top)
