-- ===== src/Heap/Alloc.antt =====
-- `malloc` implements first fit on the blocks of the region.
use almorina_os.Prelude.{
  ℕ, zero, suc, ◌+◌, ◌-◌, ◌≤◌, ◌<◌, ◌^◌, ◌≡◌, refl, ap, inl, inr, List, [], ◌∷◌, some, arith,
  length, Bool-cases, ◌==◌, ltb, true, false, ◌&&◌,
}
use almorina_os.Prelude.Words.{add64}
use almorina_os.Heap.{write, Heap, seg_size, malloc_loop, malloc, split}
use almorina_os.Heap.Blocks.{Block, block, Laid, Laid-update, Laid-le, alloc}

-- What a run of `malloc` from the segment at `a` leaves: its result is that of first fit, the
-- region is laid out as first fit says, and no header in front of `a` is touched.
pub record Allocated (h : Heap) (n a e : ℕ) (p : ℕ) (bs : List Block) (r : ℕ × Heap) : Type 0 where
  pub pointer : r.0 ≡ (alloc n a bs).0
  pub laid : Laid r.1.cell p a e (alloc n a bs).1
  pub same : (q : ℕ) → q < a → r.1.cell q ≡ h.cell q
  pub start : r.1.heap ≡ h.heap
  pub first : r.1.free_seg ≡ h.free_seg

-- `split` turns one header into two.
Laid-split :
    (bs : List Block) (h : Heap) (n m a e : ℕ)
    → e < 2 ^ 64
    → n + 24 < m
    → (h.cell a).len ≡ m
    → Laid h.cell (h.cell a).next (a + 24 + m) e bs
    → Laid (split a n h).cell a a e (block n false ∷ block (m - n - 24) true ∷ bs)
unfolding split
Laid-split bs h n m a e fits room len rest =
    let end : a + 24 + m ≤ e = Laid-le bs h.cell (h.cell a).next (a + 24 + m) e rest in
    let new : add64 (add64 a n) seg_size ≡ a + 24 + n = omega arith in
    let back : a + 24 + n + 24 + (m - n - 24) ≡ a + 24 + m = omega arith in
    let tail : Laid (split a n h).cell (h.cell a).next (a + 24 + m) e bs =
      Laid-update bs _ _ _ e a _ (omega arith)
        (Laid-update bs h.cell _ _ e (add64 (add64 a n) seg_size) _ (omega arith) rest) in
    ground (arith, new, back, tail)

-- `split` writes at the slot and behind it, and leaves the globals alone.
split-frame :
    (h : Heap) (n a : ℕ)
    → a + n + 24 < 2 ^ 64
    → ((q : ℕ) → q < a → (split a n h).cell q ≡ h.cell q)
      × ((split a n h).heap ≡ h.heap)
      × ((split a n h).free_seg ≡ h.free_seg)
unfolding split
split-frame h n a fits = (λ q lt. ground arith, refl, refl)

-- A block that does not fit is passed over.
Allocated-step :
    (b : Block) (bs : List Block) (h : Heap) (n p a e : ℕ) (r : ℕ × Heap)
    → (b.free && b.len == n) ≡ false
    → (b.free && ltb (n + 24) b.len) ≡ false
    → p ≡ a
    → (h.cell a).len ≡ b.len
    → (h.cell a).free ≡ b.free
    → Allocated h n (a + 24 + b.len) e (h.cell a).next bs r
    → Allocated h n a e p (b ∷ bs) r
unfolding alloc
Allocated-step b bs h n p a e r differs tight at len free got = record {
  pointer = rw (differs, tight) got.pointer;
  laid =
      rw (differs, tight)
        (at, ground (arith, kept), ground (arith, kept), rw (ap (λ s. s.next) kept) got.laid);
  same = λ q lt. got.same q (omega arith);
  start = got.start;
  first = got.first;
}
  where
    kept : r.1.cell a ≡ h.cell a
    kept = got.same a (omega arith)

malloc_loop-alloc :
    (fuel : ℕ) (bs : List Block) (h : Heap) (n p a e : ℕ)
    → length bs < fuel
    → 0 < a
    → e < 2 ^ 64
    → n + 24 < 2 ^ 64
    → Laid h.cell p a e bs
    → (r : ℕ × Heap) × (malloc_loop fuel p n h ≡ some r) × Allocated h n a e p bs r
unfolding malloc_loop alloc
malloc_loop-alloc zero bs h n p a e enough pos fits small l = absurd (omega arith)
malloc_loop-alloc (suc fuel) [] h n p a e enough pos fits small l =
    ((0, h), ground arith, ground arith)
malloc_loop-alloc (suc fuel) (b ∷ bs) h n p a e enough pos fits small (at, len, free, rest) =
    let end : a + 24 + b.len ≤ e = Laid-le bs h.cell (h.cell a).next (a + 24 + b.len) e rest in
    elim (Bool-cases (b.free && b.len == n)) [
      | inl exact ↦ rw at (
        (a + 24, write h a (record { len = n; free = false; next = (h.cell a).next })),
        ground arith,
        ground (
          arith,
          Laid-update bs h.cell (h.cell a).next (a + 24 + b.len) e a
              (record { len = n; free = false; next = (h.cell a).next }) (omega arith) rest,
        ),
      )
      | inr differs ↦ elim (Bool-cases (b.free && ltb (n + 24) b.len)) [
        | inl larger ↦ rw at (
          (a + 24, split a n h),
          ground arith,
          record {
            pointer = ground arith;
            laid = ground (arith, Laid-split bs h n b.len a e fits);
            same = (split-frame h n a (ground arith)).0;
            start = (split-frame h n a (ground arith)).1;
            first = (split-frame h n a (ground arith)).2;
          },
        )
        | inr none_fits ↦
            let (r, run, got) =
              malloc_loop-alloc fuel bs h n (h.cell a).next (a + 24 + b.len) e (omega arith)
                (omega arith) fits small rest in
            (r, ground arith, Allocated-step b bs h n p a e r differs none_fits at len free got)
      ]
    ]

pub malloc_refines :
    (fuel n a e : ℕ) (h : Heap) (bs : List Block)
    → length bs < fuel
    → 0 < a
    → e < 2 ^ 64
    → n + 24 < 2 ^ 64
    → Laid h.cell h.free_seg a e bs
    → (h' : Heap) × (malloc fuel n h ≡ some ((alloc n a bs).0, h'))
      × Laid h'.cell h'.free_seg a e (alloc n a bs).1
      × (h'.heap ≡ h.heap)
      × (h'.free_seg ≡ h.free_seg)
unfolding malloc
malloc_refines fuel n a e h bs enough pos fits small l =
    let (r, run, got) = malloc_loop-alloc fuel bs h n h.free_seg a e enough pos fits small l in
    (r.1, ground arith, rw got.first got.laid, got.start, got.first)
