-- ===== src/Heap.antt =====
-- The kernel heap, src/c-code/heap.c: a first-fit free list whose segment headers live in the
-- memory that they manage. `cell a` is the `mem_segment_t` that stands at address `a`; a write of
-- a header is a write of that cell. Two headers at addresses less than 24 apart would share bytes,
-- which `Blocks.Laid` rules out for the headers of one heap.
-- Every `while` loop over the list takes fuel, and `none` means that it ran out.
pub mod Blocks
pub mod Alloc
pub mod Release
pub mod Live
pub mod Packed
pub mod Invariant
pub mod Overflow
mod Tests
use almorina_os.Prelude.{
  ℕ, zero, suc, ◌+◌, Bool, true, false, ◌&&◌, Option, none, some, ltb, ◌==◌, if◌then◌else◌,
}
use almorina_os.Prelude.Words.{add64, sub64}
use almorina_os.Prelude.Store.{update}

-- `mem_segment_t`; a null `next` is 0.
pub record MemSegment : Type 0 where
  pub len : ℕ
  pub free : Bool
  pub next : ℕ

-- sizeof(mem_segment_t): two words and a padded flag.
abbrev pub seg_size : ℕ
seg_size = 24

-- The globals `heap` and `free_seg`, and the headers in memory.
pub record Heap : Type 0 where
  pub heap : ℕ
  pub free_seg : ℕ
  pub cell : ℕ → MemSegment

abbrev pub write : Heap → ℕ → MemSegment → Heap
write h p s = record h { cell = update h.cell p s }

-- A region at address 0 loses its first byte, so that no header stands at the null address.
initialize_at : ℕ → ℕ → Heap → Heap
initialize_at addr size h = record {
  heap = addr;
  free_seg = addr;
  cell = update h.cell addr (record { len = sub64 size seg_size; free = true; next = 0 });
}

pub initialize_heap : ℕ → ℕ → Heap → Heap
unfolding initialize_at
initialize_heap addr size h =
    if addr == 0 then initialize_at 1 (sub64 size 1) h else initialize_at addr size h

-- The writes in the order of the code: three to `new`, which read the old slot, then three to it.
unfoldable pub split : ℕ → ℕ → Heap → Heap
split slot size h =
    let new = add64 (add64 slot size) seg_size in
    let old = h.cell slot in
    let h' =
      write h new
        (record { len = sub64 (sub64 old.len size) seg_size; free = true; next = old.next }) in
    write h' slot (record { len = size; free = false; next = new })

-- The pointer behind the header, `(void*)(curr+1)`, or 0 when no segment fits.
unfoldable pub malloc_loop : ℕ → ℕ → ℕ → Heap → Option (ℕ × Heap)
malloc_loop zero curr n h = none
malloc_loop (suc fuel) curr n h =
    let s = h.cell curr in
    let rest = malloc_loop fuel s.next n h in
    if curr == 0
    then some (0, h)
    else if s.free && s.len == n
    then some (add64 curr seg_size, write h curr (record s { free = false }))
    else if s.free && ltb (add64 n seg_size) s.len
    then some (add64 curr seg_size, split curr n h)
    else rest

unfoldable pub malloc : ℕ → ℕ → Heap → Option (ℕ × Heap)
malloc fuel n h = malloc_loop fuel h.free_seg n h

-- The header of `curr` once it has taken in its neighbour.
abbrev pub absorbed : Heap → ℕ → MemSegment
absorbed h curr =
    let s = h.cell curr in
    let t = h.cell s.next in record s { len = add64 s.len (add64 t.len seg_size); next = t.next }

pub merge_loop : ℕ → ℕ → Heap → Option Heap
merge_loop zero curr h = none
merge_loop (suc fuel) curr h =
    let s = h.cell curr in
    let t = h.cell s.next in
    let joined = merge_loop fuel curr (write h curr (absorbed h curr)) in
    let stepped = merge_loop fuel s.next h in
    if curr == 0
    then some h
    else if s.next == 0
    then some h
    else if s.free && t.free
    then joined
    else stepped

pub merge : ℕ → Heap → Option Heap
merge fuel h = merge_loop fuel h.free_seg h

-- The walk of `free` to the segment whose payload starts at `ptr`: its address, or 0.
pub find_loop : ℕ → ℕ → ℕ → Heap → Option ℕ
find_loop zero curr ptr h = none
find_loop (suc fuel) curr ptr h =
    let rest = find_loop fuel (h.cell curr).next ptr h in
    if curr == 0 then some 0 else if add64 curr seg_size == ptr then some curr else rest

abbrev pub freed : Heap → ℕ → MemSegment
freed h p = let s = h.cell p in record s { free = true }

-- The flag is `isvalid`: without it `free` prints a message and changes nothing.
abbrev pub release_at : ℕ → ℕ → Heap → Option (Bool × Heap)
release_at fuel curr h = elim (merge fuel (write h curr (freed h curr))) [
  | none ↦ none
  | some h' ↦ some (true, h')
]

pub free : ℕ → ℕ → Heap → Option (Bool × Heap)
free fuel ptr h = elim (find_loop fuel h.heap ptr h) [
  | none ↦ none
  | some zero ↦ some (false, h)
  | some (suc p) ↦ release_at fuel (suc p) h
]
