-- ===== src/Mmap.antt =====
-- The memory map of the boot loader, src/c-code/mmap.c, and the heap's start on it,
-- `initialize_memory` of src/c-code/heap.c. The boot information is bytes of memory, as the Multiboot
-- standard lays it out. The array `mmap` has ten entries: a store behind the last of them, which the
-- code does not keep from happening, is `none`.
pub mod Tags
pub mod Start
mod Tests
use Prim.Native.Nat.{bit_and}
use almorina_os.Prelude.{ℕ, zero, suc, ◌+◌, Option, none, some, ltb, leb, ◌==◌, ◌&&◌, if◌then◌else◌}
use almorina_os.Prelude.Words.{u8, u32}
use almorina_os.Prelude.Store.{update}
use almorina_os.Prelude.Fault.{◌>>=◌}
use almorina_os.Cstring.{Memory}
use almorina_os.Heap.{Heap, initialize_heap}
use almorina_os.Fs.Word.{load}

abbrev pub multiboot_tag_type_end : ℕ
multiboot_tag_type_end = 0

abbrev pub multiboot_tag_type_mmap : ℕ
multiboot_tag_type_mmap = 6

abbrev pub multiboot_memory_available : ℕ
multiboot_memory_available = 1

-- `multiboot_memory_map_t`, and one in memory.
pub record MemoryMap : Type 0 where
  pub addr : ℕ
  pub len : ℕ
  pub type : ℕ
  pub zero_field : ℕ

abbrev pub entry_at : ℕ → Memory → MemoryMap
entry_at p m = record {
  addr = load 8 p m;
  len = load 8 (p + 8) m;
  type = load 4 (p + 16) m;
  zero_field = load 4 (p + 20) m;
}

-- The globals `mmap` and `entries_count`.
pub record Mmap : Type 0 where
  pub mmap : ℕ → MemoryMap
  pub entries_count : ℕ

abbrev pub add_entry : MemoryMap → Mmap → Mmap
add_entry e s = record {
  mmap = update s.mmap s.entries_count e;
  entries_count = u8 (s.entries_count + 1);
}

abbrev pub max_entries : ℕ
max_entries = 10

-- The inner loop, up to the address `end`.
unfoldable pub entries_loop : ℕ → ℕ → ℕ → ℕ → Memory → Mmap → Option Mmap
entries_loop zero end entry_size p m s = none
entries_loop (suc fuel) end entry_size p m s =
    let e = entry_at p m in
    let s' = if e.type == multiboot_memory_available then add_entry e s else s in
    let rest = entries_loop fuel end entry_size (p + entry_size) m s' in
    let full = e.type == multiboot_memory_available && leb max_entries s.entries_count in
    if ltb p end then (if full then none else rest) else some s

-- The outer loop.
unfoldable pub tags_loop : ℕ → ℕ → Memory → Mmap → Option Mmap
tags_loop zero tag m s = none
tags_loop (suc fuel) tag m s =
    let size = load 4 (tag + 4) m in
    let next = tag + bit_and (u32 (size + 7)) 0xfffffff8 in
    let read = entries_loop fuel (tag + size) (load 4 (tag + 8) m) (tag + 16) m s >>= λ s'.
    tags_loop fuel next m s' in
    let skip = tags_loop fuel next m s in
    if load 4 tag m == multiboot_tag_type_end
    then some s
    else if load 4 tag m == multiboot_tag_type_mmap
    then read
    else skip

unfoldable pub extract_mmap : ℕ → ℕ → Memory → Mmap → Option Mmap
unfolding tags_loop
extract_mmap fuel mbi_addr m s = tags_loop fuel (mbi_addr + 8) m s

-- The index of the entry that is pointed to, or null. The index is not negative.
abbrev pub get_mmap_entery : ℕ → Mmap → Option ℕ
get_mmap_entery index s = if leb s.entries_count index then none else some index

-- Null is not tested: `none` is its dereference.
unfoldable pub initialize_memory : ℕ → ℕ → Memory → Mmap → Heap → Option (Mmap × Heap)
unfolding extract_mmap
initialize_memory fuel addr m s h = extract_mmap fuel addr m s >>= λ s'.
    get_mmap_entery 0 s' >>= λ i.
    let ent = s'.mmap i in some (s', initialize_heap ent.addr ent.len h)
