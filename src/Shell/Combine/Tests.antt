-- ===== src/Shell/Combine/Tests.antt =====
-- Two strings at 100 and 104, and a heap that gives the memory behind 50024.
use almorina_os.Prelude.{◌≡◌, inr, refl, arith, true, some, [], ◌∷◌, ◌==◌, if◌then◌else◌}
use almorina_os.Cstring.{Memory}
use almorina_os.Cstring.Bytes.{IsString, SameOutside}
use almorina_os.Heap.{Heap, MemSegment, malloc, malloc_loop, split}
use almorina_os.Shell.Combine.{shell_combine_strings}
use almorina_os.Shell.Combine.Joined.{shell_combine_strings_lem}

abbrev segment : MemSegment
segment = record { len = 1000; free = true; next = 0 }

abbrev free_heap : Heap
free_heap = record { heap = 50000; free_seg = 50000; cell = λ _. segment }

malloc_five : malloc 3 5 free_heap ≡ some (50024, split 50000 5 free_heap)
unfolding malloc malloc_loop
malloc_five = refl

malloc_none : malloc 3 0 free_heap ≡ some (50024, split 50000 0 free_heap)
unfolding malloc malloc_loop
malloc_none = refl

-- "ab" at 100 and "c" at 104.
abbrev two_strings : Memory
two_strings q = if q == 100 then 97 else if q == 101 then 98 else if q == 104 then 99 else 0

shell_combine_strings_lem_example :
    (m' : Memory) × (shell_combine_strings 3 (100 ∷ 104 ∷ []) two_strings free_heap
      ≡ some (50024, m', split 50000 5 free_heap))
    × IsString m' 50024 (97 ∷ 98 ∷ b' ' ∷ 99 ∷ [])
    × SameOutside 50024 5 two_strings m'
shell_combine_strings_lem_example =
    shell_combine_strings_lem (97 ∷ 98 ∷ []) ((99 ∷ []) ∷ []) (100 ∷ 104 ∷ []) 3 50024 two_strings
      free_heap (split 50000 5 free_heap)
      (
        (
          (refl, omega arith, (refl, omega arith, refl)),
          omega arith,
          omega arith,
          omega arith,
          inr (omega arith),
        ),
        (((refl, omega arith, refl), omega arith, omega arith, omega arith, inr (omega arith)), tt),
      )
      (omega arith) malloc_five
