-- ===== src/Mmap/Tags.antt =====
-- What is read from a list of tags.
use Prim.Native.Nat.{bit_and}
use almorina_os.Prelude.{
  ℕ, zero, suc, ◌+◌, ◌*◌, ◌/◌, ◌≤◌, ◌<◌, ◌^◌, ◌≡◌, ◌≢◌, refl, ◌∙◌, ap, arith, true, false,
  Bool-cases, inl, inr, some, some_inj, List, [], ◌∷◌, ◌++◌, length, length-append, get_elem?, ltb,
  leb, ◌==◌, if◌then◌else◌,
}
use almorina_os.Prelude.Words.{u32}
use almorina_os.Prelude.Bits.{bit_and-multiple}
use almorina_os.Cstring.{Memory}
use almorina_os.Fs.Word.{load}
use almorina_os.Mmap.{MemoryMap, Mmap, entry_at, add_entry, entries_loop, tags_loop, extract_mmap}

-- A tag: the memory map with the size of its entries, or another type with its size.
pub data Tag : Type 0 where
  memory : ℕ → List MemoryMap → Tag
  other : ℕ → ℕ → Tag

-- The bytes of a list of entries.
abbrev pub span : ℕ → List MemoryMap → ℕ
span step [] = 0
span step (e ∷ es) = step + span step es

abbrev pub tag_size : Tag → ℕ
tag_size (memory step es) = 16 + span step es
tag_size (other type size) = size

-- The entries from `p` on, `step` bytes apart.
abbrev pub EntriesAt : Memory → ℕ → ℕ → List MemoryMap → Type 0
EntriesAt m p step [] = Unit {0}
EntriesAt m p step (e ∷ es) = (entry_at p m ≡ e) × EntriesAt m (p + step) step es

abbrev pub TagAt : Memory → ℕ → Tag → Type 0
TagAt m p (memory step es) =
    (load 4 p m ≡ 6) × (load 4 (p + 8) m ≡ step) × (0 < step) × EntriesAt m (p + 16) step es
TagAt m p (other type size) = (load 4 p m ≡ type) × (type ≢ 0) × (type ≢ 6)

-- The tags from `p` on, each at a multiple of 8 behind the one before, with the one that ends them.
abbrev pub TagsAt : Memory → ℕ → List Tag → Type 0
TagsAt m p [] = load 4 p m ≡ 0
TagsAt m p (t ∷ ts) =
    (TagAt m p t × (load 4 (p + 4) m ≡ tag_size t) × (tag_size t + 7 < 2 ^ 32))
    × TagsAt m (p + (tag_size t + 7) / 8 * 8) ts

-- The entries that are available memory.
abbrev pub available : List MemoryMap → List MemoryMap
available [] = []
available (e ∷ es) = let rest = available es in if e.type == 1 then e ∷ rest else rest

abbrev pub available_in : List Tag → List MemoryMap
available_in [] = []
available_in (memory step es ∷ ts) = available es ++ available_in ts
available_in (other type size ∷ ts) = available_in ts

-- The rounds of both loops.
abbrev pub rounds : List Tag → ℕ
rounds [] = 1
rounds (memory step es ∷ ts) = length es + 1 + rounds ts
rounds (other type size ∷ ts) = suc (rounds ts)

abbrev pub add_all : List MemoryMap → Mmap → Mmap
add_all [] s = s
add_all (e ∷ es) s = add_all es (add_entry e s)

add_all-append :
    (es fs : List MemoryMap) (s : Mmap) → add_all (es ++ fs) s ≡ add_all fs (add_all es s)
add_all-append [] fs s = refl
add_all-append (e ∷ es) fs s = add_all-append es fs (add_entry e s)

add_all-count :
    (es : List MemoryMap) (s : Mmap)
    → s.entries_count + length es < 2 ^ 8
    → (add_all es s).entries_count ≡ s.entries_count + length es
add_all-count [] s few = omega arith
add_all-count (e ∷ es) s few =
    let next : (add_entry e s).entries_count ≡ s.entries_count + 1 = omega arith in
    omega (arith, next, add_all-count es (add_entry e s) (omega (arith, next)))

entries_loop_lem :
    (es : List MemoryMap) (fuel end step p : ℕ) (m : Memory) (s : Mmap)
    → length es < fuel
    → 0 < step
    → end ≡ p + span step es
    → EntriesAt m p step es
    → s.entries_count + length (available es) ≤ 10
    → entries_loop fuel end step p m s ≡ some (add_all (available es) s)
unfolding entries_loop
entries_loop_lem es zero end step p m s enough forward at_end is few = absurd (omega arith)
entries_loop_lem [] (suc fuel) end step p m s enough forward at_end is few =
    let stop : ltb p end ≡ false = ground (arith, at_end) in rw stop refl
entries_loop_lem (e ∷ es) (suc fuel) end step p m s enough forward at_end (here, is) few =
    let on : ltb p end ≡ true = ground (arith, at_end, forward) in
    let later : (s' : Mmap)
        → s'.entries_count + length (available es) ≤ 10
        → entries_loop fuel end step (p + step) m s' ≡ some (add_all (available es) s') =
      λ s' room.
        entries_loop_lem es fuel end step (p + step) m s' (omega arith) forward (omega arith) is
          room in
    elim (Bool-cases (e.type == 1)) [
      | inl yes_available ↦
          let test = ap (λ x. x.type == 1) here ∙ yes_available in
          let room = rw yes_available at few in
          let fits : leb 10 s.entries_count ≡ false = ground (arith, room) in
          rw (on, test, yes_available, fits)
            (later (add_entry (entry_at p m) s) (omega (arith, room))
              ∙ ap (λ x. some (add_all (available es) (add_entry x s))) here)
      | inr not_available ↦
          let test = ap (λ x. x.type == 1) here ∙ not_available in
          rw (on, test, not_available) (later s (rw not_available at few))
    ]

rounds_pos : (ts : List Tag) → 0 < rounds ts
rounds_pos [] = omega arith
rounds_pos (memory step es ∷ ts) = omega arith
rounds_pos (other type size ∷ ts) = omega arith

-- The way to the next tag.
padded : (size : ℕ) → size + 7 < 2 ^ 32 → bit_and (u32 (size + 7)) 0xfffffff8 ≡ (size + 7) / 8 * 8
padded size fits =
    let whole : u32 (size + 7) ≡ size + 7 = omega arith in
    rw whole (bit_and-multiple (size + 7) fits)

-- With enough fuel, and room in the array, the entries of available memory of all tags are added, in
-- order.
tags_loop_lem :
    (ts : List Tag) (fuel p : ℕ) (m : Memory) (s : Mmap)
    → rounds ts ≤ fuel
    → TagsAt m p ts
    → s.entries_count + length (available_in ts) ≤ 10
    → tags_loop fuel p m s ≡ some (add_all (available_in ts) s)
unfolding tags_loop
tags_loop_lem ts zero p m s enough is few = absurd (omega (arith, rounds_pos ts))
tags_loop_lem [] (suc fuel) p m s enough is few = rw is refl
tags_loop_lem (memory step es ∷ ts) (suc fuel) p m s enough
      (((type, size_of, forward, is), size, fits), rest) few =
    let whole = 16 + span step es in
    let here : p + whole ≡ p + 16 + span step es = omega arith in
    let room = rw (length-append (available es) (available_in ts)) at few in
    let counted = add_all-count (available es) s (omega (arith, room)) in
    let read =
      entries_loop_lem es fuel (p + whole) step (p + 16) m s (omega (arith, rounds_pos ts)) forward
        here is (omega (arith, room)) in
    rw
      (
        type,
        size,
        size_of,
        read,
        padded whole fits,
        add_all-append (available es) (available_in ts) s,
      )
      (tags_loop_lem ts fuel (p + (whole + 7) / 8 * 8) m (add_all (available es) s) (omega arith)
        rest (omega (arith, room, counted)))
tags_loop_lem (other type size ∷ ts) (suc fuel) p m s enough
      (((at, no_end, no_map), size_is, fits), rest) few =
    let on : (load 4 p m == 0) ≡ false = ground (arith, at, no_end) in
    let skipped : (load 4 p m == 6) ≡ false = ground (arith, at, no_map) in
    rw (on, skipped, size_is, padded size fits)
      (tags_loop_lem ts fuel (p + (size + 7) / 8 * 8) m s (omega arith) rest few)

add_all-before :
    (es : List MemoryMap) (s : Mmap) (j : ℕ)
    → s.entries_count + length es < 2 ^ 8
    → j < s.entries_count
    → (add_all es s).mmap j ≡ s.mmap j
add_all-before [] s j few lt = refl
add_all-before (e ∷ es) s j few lt =
    let next : (add_entry e s).entries_count ≡ s.entries_count + 1 = omega arith in
    add_all-before es (add_entry e s) j (omega (arith, next)) (omega (arith, next))
    ∙ ground (arith, lt)

add_all-get :
    (es : List MemoryMap) (s : Mmap) (i : ℕ) (e : MemoryMap)
    → s.entries_count + length es < 2 ^ 8
    → get_elem? es i ≡ some e
    → (add_all es s).mmap (s.entries_count + i) ≡ e
add_all-get [] s i e few found = cc
add_all-get (x ∷ es) s zero e few found =
    let next : (add_entry x s).entries_count ≡ s.entries_count + 1 = omega arith in
    let here : s.entries_count + 0 ≡ s.entries_count = omega arith in
    rw here (
      add_all-before es (add_entry x s) s.entries_count (omega (arith, next)) (omega (arith, next))
      ∙ ground arith
      ∙ some_inj found)
add_all-get (x ∷ es) s (suc i) e few found =
    let next : (add_entry x s).entries_count ≡ s.entries_count + 1 = omega arith in
    let here : s.entries_count + suc i ≡ (add_entry x s).entries_count + i = omega (arith, next) in
    rw here (add_all-get es (add_entry x s) i e (omega (arith, next)) found)

-- With enough fuel, on boot information that is a list of tags with at most the ten entries
-- of available memory that the array has, `extract_mmap` on empty globals counts these entries, of all
-- tags in order, and stores entry `i` at index `i` of the array.
pub extract_mmap_lem :
    (ts : List Tag) (fuel mbi_addr : ℕ) (m : Memory) (s : Mmap)
    → rounds ts ≤ fuel
    → TagsAt m (mbi_addr + 8) ts
    → s.entries_count ≡ 0
    → length (available_in ts) ≤ 10
    → (s' : Mmap) × (extract_mmap fuel mbi_addr m s ≡ some s')
      × (s'.entries_count ≡ length (available_in ts))
      × ((i : ℕ) (e : MemoryMap) → get_elem? (available_in ts) i ≡ some e → s'.mmap i ≡ e)
unfolding extract_mmap
extract_mmap_lem ts fuel mbi_addr m s enough is empty few =
    let es = available_in ts in
    (
      add_all es s,
      tags_loop_lem ts fuel (mbi_addr + 8) m s enough is (omega arith),
      omega (arith, add_all-count es s (omega arith)),
      λ i e found.
          let here : i ≡ s.entries_count + i = omega arith in
          rw here (add_all-get es s i e (omega arith) found),
    )
