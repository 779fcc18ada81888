-- ===== src/Mmap/Tests.antt =====
-- Boot information at 1000: one tag, a memory map of one entry of 4096 bytes from address 1048576 on.
use almorina_os.Prelude.{
  ℕ, ◌+◌, ◌-◌, ◌≤◌, ◌≡◌, refl, arith, true, some, List, [], ◌∷◌, get_elem?, ◌==◌, if◌then◌else◌,
}
use almorina_os.Cstring.{Memory}
use almorina_os.Heap.{Heap, MemSegment}
use almorina_os.Heap.Blocks.{block}
use almorina_os.Heap.Invariant.{IsHeap}
use almorina_os.Fs.Word.{load}
use almorina_os.Mmap.{MemoryMap, Mmap, extract_mmap, initialize_memory}
use almorina_os.Mmap.Tags.{Tag, memory, TagsAt, extract_mmap_lem}
use almorina_os.Mmap.Start.{initialize_memory-IsHeap}

abbrev region : MemoryMap
region = record { addr = 1048576; len = 4096; type = 1; zero_field = 0 }

-- The tag has type 6, a size of 40 and entries of 24 bytes.
abbrev boot_memory : Memory
boot_memory q =
    if q == 1008
    then 6
    else if q == 1012
    then 40
    else if q == 1016
    then 24
    else if q == 1026
    then 16
    else if q == 1033
    then 16
    else if q == 1040
    then 1
    else 0

abbrev one_tag : List Tag
one_tag = memory 24 (region ∷ []) ∷ []

one_tag-TagsAt : TagsAt boot_memory 1008 one_tag
unfolding load
one_tag-TagsAt = ((((refl, refl, omega arith, (refl, tt)), refl, omega arith)), refl)

abbrev empty : Mmap
empty = record { mmap = λ _. region; entries_count = 0 }

abbrev segment : MemSegment
segment = record { len = 0; free = true; next = 0 }

abbrev no_heap : Heap
no_heap = record { heap = 0; free_seg = 0; cell = λ _. segment }

extract_mmap_lem_example :
    (s' : Mmap) × (extract_mmap 9 1000 boot_memory empty ≡ some s')
    × (s'.entries_count ≡ 1)
    × ((i : ℕ) (e : MemoryMap) → get_elem? (region ∷ []) i ≡ some e → s'.mmap i ≡ e)
extract_mmap_lem_example =
    extract_mmap_lem one_tag 9 1000 boot_memory empty (omega arith) one_tag-TagsAt refl
      (omega arith)

initialize_memory-IsHeap_example :
    (s' : Mmap) × (h' : Heap) × (initialize_memory 9 1000 boot_memory empty no_heap ≡ some (s', h'))
    × IsHeap h' h'.heap 1052672 (block (1052672 - h'.heap - 24) true ∷ [])
    × (1048576 ≤ h'.heap)
    × (h'.heap ≤ 1048576 + 1)
initialize_memory-IsHeap_example =
    initialize_memory-IsHeap one_tag region [] 9 1000 boot_memory empty no_heap (omega arith)
      one_tag-TagsAt refl refl (omega arith) (omega arith) (omega arith)
