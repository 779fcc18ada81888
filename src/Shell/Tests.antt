-- ===== src/Shell/Tests.antt =====
-- The line "a b" at 100.
use almorina_os.Prelude.{
  ℕ, ◌≡◌, refl, arith, true, some, List, [], ◌∷◌, length, ◌==◌, if◌then◌else◌,
}
use almorina_os.Heap.{Heap, MemSegment, malloc, malloc_loop}
use almorina_os.Cstring.{Memory}
use almorina_os.Cstring.Bytes.{IsString, SameOutside}
use almorina_os.Shell.{Parsed, shell_parse}
use almorina_os.Shell.Parse.{AreStrings, shell_parse_lem}

abbrev line : List ℕ
line = b'a' ∷ b' ' ∷ b'b' ∷ []

abbrev typed : Memory
typed q = if q == 100 then b'a' else if q == 101 then b' ' else if q == 102 then b'b' else 0

line-IsString : IsString typed 100 line
line-IsString = (refl, omega arith, (refl, omega arith, (refl, omega arith, refl)))

abbrev sum : Memory
sum q = if q == 200 then b'1' else if q == 201 then b'+' else if q == 202 then b'2' else 0

abbrev segment : MemSegment
segment = record { len = 16; free = true; next = 0 }

abbrev heap_of_16 : Heap
heap_of_16 = record { heap = 5000; free_seg = 5000; cell = λ _. segment }

array_allocated : (h' : Heap) × (malloc 4 16 heap_of_16 ≡ some (5024, h'))
unfolding malloc malloc_loop
array_allocated = (_, refl)

shell_parse_lem_example :
    (r : Parsed) × (shell_parse 4 100 typed heap_of_16 ≡ some r)
    × (r.argc ≡ length r.args)
    × (r.argv ≡ 5024)
    × AreStrings r.mem r.args ((b'a' ∷ []) ∷ (b'b' ∷ []) ∷ [])
    × SameOutside 100 4 typed r.mem
shell_parse_lem_example =
    shell_parse_lem line 4 100 5024 typed heap_of_16 array_allocated.0 (omega arith) (omega arith)
      line-IsString array_allocated.1
