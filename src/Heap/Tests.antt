-- ===== src/Heap/Tests.antt =====
-- The allocator on a small heap.
use almorina_os.Prelude.{
  ℕ, ◌-◌, ◌+◌, ◌<◌, ◌^◌, ◌≡◌, ◌≢◌, ◌⊎◌, refl, arith, true, false, List, [], ◌∷◌, some, All,
}
use almorina_os.Heap.{Heap, MemSegment, write, malloc, malloc_loop, free}
use almorina_os.Heap.Blocks.{Block, block, owns}
use almorina_os.Heap.Live.{live, Spaced, Inserted, without, fits}
use almorina_os.Heap.Overflow.{malloc-overflow}
use almorina_os.Heap.Invariant.{IsHeap, malloc-IsHeap, free-IsHeap, free-malloc}

abbrev segment : MemSegment
segment = record { len = 1000; free = true; next = 0 }

-- One free block of 1000 bytes at address 5000.
abbrev free_heap : Heap
free_heap = record { heap = 5000; free_seg = 5000; cell = λ _. segment }

free_heap-IsHeap : IsHeap free_heap 5000 6024 (block 1000 true ∷ [])
free_heap-IsHeap = record {
  start = refl;
  not_null = omega arith;
  in_memory = omega arith;
  laid = (refl, refl, refl, (refl, refl));
  packed = (refl, tt);
}

malloc-IsHeap_example :
    (p : ℕ) × (h' : Heap) × (bs' : List Block) × (malloc 2 100 free_heap ≡ some (p, h'))
    × IsHeap h' 5000 6024 bs'
    × Spaced 5000 6024 (live 5000 bs')
    × ((p ≡ 0) × (bs' ≡ block 1000 true ∷ []) × All (λ b. fits 100 b ≡ false) (block 1000 true ∷ [])
        ⊎ (p ≢ 0) × Inserted p 100 [] (live 5000 bs'))
malloc-IsHeap_example =
    malloc-IsHeap 2 100 5000 6024 (block 1000 true ∷ []) free_heap-IsHeap (omega arith)
      (omega arith)

abbrev used_segment : MemSegment
used_segment = record { len = 1000; free = false; next = 0 }

abbrev used_heap : Heap
used_heap = record { heap = 5000; free_seg = 5000; cell = λ _. used_segment }

used_heap-IsHeap : IsHeap used_heap 5000 6024 (block 1000 false ∷ [])
used_heap-IsHeap = record {
  start = refl;
  not_null = omega arith;
  in_memory = omega arith;
  laid = (refl, refl, refl, (refl, refl));
  packed = (refl, tt);
}

free-IsHeap_example :
    (owns 5024 5000 (block 1000 false ∷ []) ≡ false)
      × (free 2 5024 used_heap ≡ some (false, used_heap))
    ⊎ (owns 5024 5000 (block 1000 false ∷ []) ≡ true)
      × ((h' : Heap) × (bs' : List Block) × (free 2 5024 used_heap ≡ some (true, h'))
          × IsHeap h' 5000 6024 bs'
          × (live 5000 bs' ≡ without 5024 (live 5000 (block 1000 false ∷ []))))
free-IsHeap_example =
    free-IsHeap 2 5024 5000 6024 (block 1000 false ∷ []) used_heap-IsHeap (omega arith)

abbrev taken_heap : Heap
taken_heap = write free_heap 5000 used_segment

malloc_run : malloc 3 1000 free_heap ≡ some (5024, taken_heap)
unfolding malloc malloc_loop
malloc_run = refl

free-malloc_example :
    (h'' : Heap) × (free 3 5024 taken_heap ≡ some (true, h''))
    × IsHeap h'' 5000 6024 (block 1000 true ∷ [])
free-malloc_example =
    free-malloc 3 1000 5000 6024 (block 1000 true ∷ []) 5024 free_heap-IsHeap (omega arith)
      (omega arith) malloc_run (omega arith)

malloc-overflow_example :
    (h' : Heap) × (malloc 1 (2 ^ 64 - 10) free_heap ≡ some (5024, h'))
    × ((h'.cell 5000).len ≡ 2 ^ 64 - 10)
    × ((h'.cell 5000).free ≡ false)
    × (6024 < 5024 + (2 ^ 64 - 10))
malloc-overflow_example =
    malloc-overflow 0 (2 ^ 64 - 10) free_heap (omega arith) refl (omega arith) (omega arith)
      (omega arith) (omega arith)
