-- ===== src/Memory/Heap/Tests.antt =====
-- A heap that nothing was allocated in.
use muk.Prelude.{◌+◌, ◌≡◌, refl, [], ◌∷◌, ◌++◌, some, true, arith, inl}
use muk.Memory.Heap.{Heap, k_heap_start, blank_header, vmalloc}
use muk.Memory.Heap.Chain.{sum}
use muk.Memory.Heap.Bump.{IsHeap, vmalloc_lem}

abbrev blank_heap : Heap
blank_heap = record {
  headers = λ a. blank_header;
  kheap_start = 0;
  kheap_top = k_heap_start;
  mapped = [];
  interrupts = true;
}

blank_heap-IsHeap : IsHeap blank_heap []
blank_heap-IsHeap = record { start = refl; chain = tt; covered = inl refl }

vmalloc_lem_example :
    (t : Heap) × (vmalloc 70000 100 blank_heap ≡ some (k_heap_start + sum [] + 12, t))
    × IsHeap t ([] ++ (100 + 12) ∷ [])
    × (t.interrupts ≡ true)
vmalloc_lem_example =
    vmalloc_lem 70000 100 [] blank_heap (omega arith) blank_heap-IsHeap (omega arith) (omega arith)
