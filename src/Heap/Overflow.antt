-- ===== src/Heap/Overflow.antt =====
-- A request whose size and header wrap around.
use almorina_os.Prelude.{ℕ, suc, ◌+◌, ◌≤◌, ◌<◌, ◌^◌, ◌≡◌, refl, arith, true, false, some, ltb, ◌==◌}
use almorina_os.Prelude.Words.{add64}
use almorina_os.Heap.{Heap, seg_size, malloc, malloc_loop, split}

split-len : (n a : ℕ) (h : Heap) → ((split a n h).cell a).len ≡ n
unfolding split
split-len n a h = ground arith

split-free : (n a : ℕ) (h : Heap) → ((split a n h).cell a).free ≡ false
unfolding split
split-free n a h = ground arith

-- If the first segment is free and ends in the address space, a request of a size that wraps
-- around with a header to less than the segment's length is answered: `malloc` returns the segment's
-- payload, and its header then claims the size asked for, which ends behind the segment.
pub malloc-overflow :
    (fuel n : ℕ) (h : Heap)
    → let a = h.free_seg in
      let s = h.cell a in
      0 < a
      → s.free ≡ true
      → a + 24 + s.len < 2 ^ 64
      → n < 2 ^ 64
      → 2 ^ 64 ≤ n + 24
      → n + 24 < 2 ^ 64 + s.len
      → (h' : Heap) × (malloc (suc fuel) n h ≡ some (a + 24, h'))
        × ((h'.cell a).len ≡ n)
        × ((h'.cell a).free ≡ false)
        × (a + 24 + s.len < a + 24 + n)
unfolding malloc malloc_loop
malloc-overflow fuel n h positive free ends word wraps room =
    let a = h.free_seg in
    let not_null : (a == 0) ≡ false = ground (arith, positive) in
    let differs : ((h.cell a).len == n) ≡ false = ground (arith, ends, wraps) in
    let passed : ltb (add64 n seg_size) (h.cell a).len ≡ true = ground (arith, word, wraps, room) in
    let pointer : add64 a seg_size ≡ a + 24 = omega arith in
    (
      split a n h,
      rw (not_null, free, differs, passed, pointer) refl,
      split-len n a h,
      split-free n a h,
      omega arith,
    )
