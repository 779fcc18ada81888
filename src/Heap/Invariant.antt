-- ===== src/Heap/Invariant.antt =====
-- The heap's invariant, and that every operation of heap.c keeps it and does what it should to the
-- live blocks.
use almorina_os.Prelude.{
  ℕ, ◌+◌, ◌-◌, ◌≤◌, ◌<◌, ◌^◌, ◌≡◌, ◌≢◌, ◌⊎◌, sym, ap, ◌∙◌, inl, inr, true, false, List, [], ◌∷◌,
  some, some_inj, arith, length, All, Bool-cases, ◌==◌,
}
use mathlib.Core.Path.{subst}
use native.Mathlib.Decide.{ℕ_discrete}
use almorina_os.Heap.{Heap, initialize_at, initialize_heap, malloc, free}
use almorina_os.Heap.Blocks.{Block, block, Laid, alloc, coalesce, owns, mark}
use almorina_os.Heap.Alloc.{malloc_refines}
use almorina_os.Heap.Release.{free_refines, free-refused}
use almorina_os.Heap.Packed.{Packed, coalesce-Packed, alloc-Packed, coalesce-mark-alloc}
use almorina_os.Heap.Live.{
  live, Spaced, live-Spaced, Inserted, live-alloc, without, live-release, fits, alloc-fails,
  owns-alloc, length-alloc,
}

-- The region from `a` to `e` is laid out as the blocks `bs`, of which no two neighbours are free.
pub record IsHeap (h : Heap) (a e : ℕ) (bs : List Block) : Type 0 where
  pub start : h.heap ≡ h.free_seg
  pub not_null : 0 < a
  pub in_memory : e < 2 ^ 64
  pub laid : Laid h.cell h.free_seg a e bs
  pub packed : Packed bs

-- A region of more than 25 bytes that ends in the address space becomes one free block; at address
-- 0 the region starts one byte later.
pub initialize_heap-IsHeap :
    (addr size : ℕ) (h : Heap)
    → 25 < size
    → addr + size < 2 ^ 64
    → let a = initialize_heap addr size h in
      IsHeap a a.heap (addr + size) (block (addr + size - a.heap - 24) true ∷ [])
      × (addr ≤ a.heap)
      × (a.heap ≤ addr + 1)
unfolding initialize_heap initialize_at
initialize_heap-IsHeap addr size h large ends = elim (Bool-cases (addr == 0)) [
  | inl low ↦ rw low (ground arith)
  | inr high ↦ rw high (ground arith)
]

malloc-alloc :
    (fuel n a e : ℕ) (h : Heap) (bs : List Block)
    → IsHeap h a e bs
    → length bs < fuel
    → n + 24 < 2 ^ 64
    → (h' : Heap) × (malloc fuel n h ≡ some ((alloc n a bs).0, h')) × IsHeap h' a e (alloc n a bs).1
malloc-alloc fuel n a e h bs is enough small =
    let (h', run, laid, start, first) =
      malloc_refines fuel n a e h bs enough is.not_null is.in_memory small is.laid in
    (
      h',
      run,
      record {
        start = start ∙ is.start ∙ sym first;
        not_null = is.not_null;
        in_memory = is.in_memory;
        laid = laid;
        packed = alloc-Packed n a bs is.packed;
      },
    )

free-coalesce :
    (fuel ptr a e : ℕ) (h : Heap) (bs : List Block)
    → IsHeap h a e bs
    → length bs < fuel
    → owns ptr a bs ≡ true
    → (h' : Heap) × (free fuel ptr h ≡ some (true, h')) × IsHeap h' a e (coalesce (mark ptr a bs))
free-coalesce fuel ptr a e h bs is enough owner =
    let from_heap = subst (λ s. Laid h.cell s a e bs) (sym is.start) is.laid in
    let (h', run, laid, start, first) =
      free_refines fuel ptr a e h bs enough is.not_null is.in_memory is.start from_heap owner in
    (
      h',
      run,
      record {
        start = start ∙ is.start ∙ sym first;
        not_null = is.not_null;
        in_memory = is.in_memory;
        laid = laid;
        packed = coalesce-Packed (mark ptr a bs);
      },
    )

-- With enough fuel `malloc` ends in a heap. Either it returns 0, no free block has the size exactly
-- or more than the size and a header, and the blocks are as before; or it returns the payload of
-- one new live block of exactly the size asked for, and every other live block is as before. In
-- both cases live blocks overlap neither each other nor a header. The size and a header must not
-- wrap.
pub malloc-IsHeap :
    (fuel n a e : ℕ) {h : Heap} (bs : List Block)
    → IsHeap h a e bs
    → length bs < fuel
    → n + 24 < 2 ^ 64
    → (p : ℕ) × (h' : Heap) × (bs' : List Block) × (malloc fuel n h ≡ some (p, h'))
      × IsHeap h' a e bs'
      × Spaced a e (live a bs')
      × ((p ≡ 0) × (bs' ≡ bs) × All (λ b. fits n b ≡ false) bs
          ⊎ (p ≢ 0) × Inserted p n (live a bs) (live a bs'))
malloc-IsHeap fuel n a e {h} bs is enough small =
    let (h', run, is') = malloc-alloc fuel n a e h bs is enough small in
    (
      (alloc n a bs).0,
      h',
      (alloc n a bs).1,
      run,
      is',
      live-Spaced _ h'.cell _ a e is'.laid,
      elim (ℕ_discrete (alloc n a bs).0 0) [
        | yes failed ↦ inl (failed, (alloc-fails n a bs failed).0, (alloc-fails n a bs failed).1)
        | no got ↦ inr (got, live-alloc n a bs got)
      ],
    )

-- With enough fuel `free` ends in a heap. A pointer that is no block's payload is refused and
-- changes nothing; any other makes its block free, and takes exactly that block from the live ones.
pub free-IsHeap :
    (fuel ptr a e : ℕ) {h : Heap} (bs : List Block)
    → IsHeap h a e bs
    → length bs < fuel
    → (owns ptr a bs ≡ false) × (free fuel ptr h ≡ some (false, h))
      ⊎ (owns ptr a bs ≡ true)
        × ((h' : Heap) × (bs' : List Block) × (free fuel ptr h ≡ some (true, h'))
            × IsHeap h' a e bs'
            × (live a bs' ≡ without ptr (live a bs)))
free-IsHeap fuel ptr a e {h} bs is enough = elim (Bool-cases (owns ptr a bs)) [
  | inr foreign ↦
      let from_heap = subst (λ s. Laid h.cell s a e bs) (sym is.start) is.laid in
      inl
        (foreign, free-refused fuel ptr a e h bs enough is.not_null is.in_memory from_heap foreign)
  | inl owner ↦
      let (h', run, is') = free-coalesce fuel ptr a e h bs is enough owner in
      inr (owner, (h', coalesce (mark ptr a bs), run, is', live-release bs ptr a))
]

-- With enough fuel, what `malloc` returned can be given back, and `free` then restores the blocks
-- of the region as they were before.
pub free-malloc :
    (fuel n a e : ℕ) {h h' : Heap} (bs : List Block) (p : ℕ)
    → IsHeap h a e bs
    → length bs + 1 < fuel
    → n + 24 < 2 ^ 64
    → malloc fuel n h ≡ some (p, h')
    → p ≢ 0
    → (h'' : Heap) × (free fuel p h' ≡ some (true, h'')) × IsHeap h'' a e bs
free-malloc fuel n a e {h} {h'} bs p is enough small run got =
    let (g, run', is') = malloc-alloc fuel n a e h bs is (omega arith) small in
    let same : ◌≡◌ {A = ℕ × Heap} ((alloc n a bs).0, g) (p, h') = some_inj (sym run' ∙ run) in
    let found : (alloc n a bs).0 ≢ 0 = λ null. got (sym (ap (λ r. r.0) same) ∙ null) in
    let (g', done, is'') =
      free-coalesce fuel (alloc n a bs).0 a e g (alloc n a bs).1 is'
        (omega (arith, length-alloc n a bs)) (owns-alloc n a bs found) in
    (
      g',
      subst (λ (r : ℕ × Heap). free fuel r.0 r.1 ≡ some (true, g')) same done,
      subst (IsHeap g' a e) (coalesce-mark-alloc n a bs is.packed found) is'',
    )
