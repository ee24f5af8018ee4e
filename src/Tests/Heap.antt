-- ===== src/Tests/Heap.antt =====
-- src/kern/ezheap.c at concrete inputs: 32 free bytes, and a request that does not fit.
use illinux.Prelude.{ℕ, ◌≡◌, refl, arith, some}
use illinux.Heap.{Heap, kmalloc}
use illinux.Heap.Blocks.{IsHeap, IsAllocated, kmalloc-IsAllocated}

abbrev heap : Heap
heap = record { heap_start = 4096; heap_end = 4128 }

heap-IsHeap : IsHeap heap
heap-IsHeap = record { ordered = omega arith; top = omega arith; aligned = refl }

kmalloc-IsAllocated_example :
    (h' : Heap) × (p : ℕ) × (kmalloc 8192 100 heap ≡ some (h', p)) × IsAllocated 8192 100 heap h' p
kmalloc-IsAllocated_example =
    kmalloc-IsAllocated 8192 100 heap heap-IsHeap refl (omega arith)
      (λ a lo hi free. omega (arith, lo, free.1)) (omega arith)
