-- ===== src/Mmap/Start.antt =====
-- The heap that the kernel starts with.
use almorina_os.Prelude.{
  ℕ, ◌+◌, ◌-◌, ◌≤◌, ◌<◌, ◌^◌, ◌≡◌, refl, ◌∙◌, ap, arith, true, false, some, List, [], ◌∷◌, length,
  leb,
}
use almorina_os.Cstring.{Memory}
use almorina_os.Heap.{Heap, initialize_heap}
use almorina_os.Heap.Blocks.{block}
use almorina_os.Heap.Invariant.{IsHeap, initialize_heap-IsHeap}
use almorina_os.Mmap.{MemoryMap, Mmap, extract_mmap, initialize_memory}
use almorina_os.Mmap.Tags.{Tag, TagsAt, available_in, rounds, extract_mmap_lem}

initialize_memory-known :
    (fuel addr : ℕ) (m : Memory) (s s' : Mmap) (h : Heap) (e : MemoryMap)
    → extract_mmap fuel addr m s ≡ some s'
    → leb s'.entries_count 0 ≡ false
    → s'.mmap 0 ≡ e
    → initialize_memory fuel addr m s h ≡ some (s', initialize_heap e.addr e.len h)
unfolding initialize_memory
initialize_memory-known fuel addr m s s' h e runs found here =
    rw (runs, found) (ap (λ x. some (s', initialize_heap x.addr x.len h)) here)

-- With enough fuel, on boot information that is a list of tags with at most ten entries of
-- available memory, the first of which has more than 25 bytes and ends in the address space,
-- `initialize_memory` makes the heap one free block of that first entry's memory. The globals are
-- empty before.
pub initialize_memory-IsHeap :
    (ts : List Tag) (e : MemoryMap) (es : List MemoryMap) (fuel addr : ℕ) (m : Memory) (s : Mmap)
    (h : Heap)
    → rounds ts ≤ fuel
    → TagsAt m (addr + 8) ts
    → s.entries_count ≡ 0
    → available_in ts ≡ e ∷ es
    → length es + 1 ≤ 10
    → 25 < e.len
    → e.addr + e.len < 2 ^ 64
    → (s' : Mmap) × (h' : Heap) × (initialize_memory fuel addr m s h ≡ some (s', h'))
      × IsHeap h' h'.heap (e.addr + e.len) (block (e.addr + e.len - h'.heap - 24) true ∷ [])
      × (e.addr ≤ h'.heap)
      × (h'.heap ≤ e.addr + 1)
initialize_memory-IsHeap ts e es fuel addr m s h enough is empty first few large ends =
    let count : length (available_in ts) ≡ length es + 1 = ap length first ∙ omega arith in
    let (s', runs, counted, stored) =
      extract_mmap_lem ts fuel addr m s enough is empty (omega (arith, count)) in
    let found : leb s'.entries_count 0 ≡ false = ground (arith, counted, count) in
    let here : s'.mmap 0 ≡ e = stored 0 e (rw first refl) in
    let (heap, low, high) = initialize_heap-IsHeap e.addr e.len h large ends in
    (
      s',
      initialize_heap e.addr e.len h,
      initialize_memory-known fuel addr m s s' h e runs found here,
      heap,
      low,
      high,
    )
