-- ===== src/Locks/Create.antt =====
-- A new semaphore gets memory of its own.
use almorina_os.Prelude.{
  ℕ, ◌<◌, ◌≡◌, ◌≢◌, ◌⊎◌, inl, inr, refl, arith, false, none, some, List, length, All, ◌==◌,
}
use almorina_os.Prelude.Store.{update}
use almorina_os.Heap.Blocks.{Block}
use almorina_os.Heap.Live.{live, Spaced, Inserted, fits}
use almorina_os.Heap.Invariant.{IsHeap, malloc-IsHeap}
use almorina_os.Locks.{Locks, created, semaphore_create, mutex_create}

-- What a call that asks for a semaphore with `max_count` leaves, when it returns `p`: null, the heap's
-- blocks and every semaphore as they were, and no free block has 24 bytes, or more than them and a
-- header; or a semaphore in a new live block of the heap, which overlaps no other one.
abbrev pub Creates : ℕ → ℕ → ℕ → List Block → Locks → ℕ → Locks → Type 0
Creates max_count a e bs s p s' =
    (bs' : List Block) × IsHeap s'.heap a e bs'
    × Spaced a e (live a bs')
    × ((q : ℕ) → q ≢ p → s'.semaphore q ≡ s.semaphore q)
    × ((p ≡ 0) × (bs' ≡ bs) × All (λ b. fits 24 b ≡ false) bs × (s'.semaphore 0 ≡ s.semaphore 0)
        ⊎ (p ≢ 0)
          × Inserted p 24 (live a bs) (live a bs')
          × ((s'.semaphore p).max_count ≡ max_count)
          × ((s'.semaphore p).current_count ≡ 0)
          × ((s'.semaphore p).first_waiting_task ≡ none)
          × ((s'.semaphore p).last_waiting_task ≡ none))

creates :
    (fuel n a e : ℕ) (bs : List Block) (s : Locks)
    → IsHeap s.heap a e bs
    → length bs < fuel
    → (p : ℕ) × (s' : Locks) × (semaphore_create fuel n s ≡ some (p, s')) × Creates n a e bs s p s'
unfolding semaphore_create
creates fuel n a e bs s is enough =
    let (p, h', bs', runs, is', spaced, result) =
      malloc-IsHeap fuel 24 a e bs is enough (omega arith) in
    elim result [
      | inl (null, same, full) ↦ (
        0,
        record s { heap = h' },
        rw (runs, null) refl,
        (bs', is', spaced, (λ q other. refl), inl (refl, same, full, refl)),
      )
      | inr (got, new) ↦
          let there : (p == 0) ≡ false = ground (arith, got) in
          (
            p,
            record s { heap = h'; semaphore = update s.semaphore p (created n) },
            rw (runs, there) refl,
            (
              bs',
              is',
              spaced,
              (λ q other. ground (arith, other)),
              inr (got, new, ground arith, ground arith, ground arith, ground arith),
            ),
          )
    ]

-- With enough fuel, on a heap, `semaphore_create` returns null and changes no semaphore, because no
-- block of the heap is free that has the size or more than the size and a header; or it returns a
-- semaphore with the count given, no count taken and no task waiting, in a new live block that
-- overlaps no other. Every other semaphore and every other live block stays as it is.
-- `mutex_create` does the same with a count of 1.
pub semaphore_create_lem :
    (fuel max_count a e : ℕ) (bs : List Block) (s : Locks)
    → IsHeap s.heap a e bs
    → length bs < fuel
    → ((p : ℕ) × (s' : Locks) × (semaphore_create fuel max_count s ≡ some (p, s'))
        × Creates max_count a e bs s p s')
      × ((p : ℕ) × (s' : Locks) × (mutex_create fuel s ≡ some (p, s')) × Creates 1 a e bs s p s')
unfolding mutex_create
semaphore_create_lem fuel max_count a e bs s is enough =
    (creates fuel max_count a e bs s is enough, creates fuel 1 a e bs s is enough)
