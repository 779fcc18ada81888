-- ===== src/Locks/Tests.antt =====
-- A heap of one free block of 1000 bytes at address 5000, and no semaphores.
use almorina_os.Prelude.{ℕ, ◌≡◌, refl, arith, true, some, [], ◌∷◌}
use almorina_os.Heap.{Heap, MemSegment}
use almorina_os.Heap.Blocks.{block}
use almorina_os.Heap.Invariant.{IsHeap}
use almorina_os.Locks.{Locks, created, semaphore_create, mutex_create}
use almorina_os.Locks.Create.{Creates, semaphore_create_lem}

abbrev segment : MemSegment
segment = record { len = 1000; free = true; next = 0 }

abbrev free_heap : Heap
free_heap = record { heap = 5000; free_seg = 5000; cell = λ _. segment }

free_heap-IsHeap : IsHeap free_heap 5000 6024 (block 1000 true ∷ [])
free_heap-IsHeap = record {
  start = refl;
  not_null = omega arith;
  in_memory = omega arith;
  laid = (refl, refl, refl, (refl, refl));
  packed = (refl, tt);
}

abbrev no_locks : Locks
no_locks = record { heap = free_heap; semaphore = λ _. created 0 }

semaphore_create_lem_example :
    ((p : ℕ) × (s' : Locks) × (semaphore_create 2 5 no_locks ≡ some (p, s'))
      × Creates 5 5000 6024 (block 1000 true ∷ []) no_locks p s')
    × ((p : ℕ) × (s' : Locks) × (mutex_create 2 no_locks ≡ some (p, s'))
        × Creates 1 5000 6024 (block 1000 true ∷ []) no_locks p s')
semaphore_create_lem_example =
    semaphore_create_lem 2 5 5000 6024 (block 1000 true ∷ []) no_locks free_heap-IsHeap
      (omega arith)
