-- ===== src/Fs/Directory.antt =====
-- Directories, src/c-code/fs.c: the entries in the blocks of a directory's inode, how one is found by
-- its name, and how one is added. An entry is 136 bytes: the address of its inode, a name of 123
-- bytes, and a flag. The loop over a block makes 31 rounds, the last of which reaches behind it.
pub mod Search
pub mod Frames
pub mod Lookup
pub mod Found
mod Tests
use almorina_os.Prelude.{
  ℕ, zero, suc, ◌+◌, Option, none, some, List, [], ◌∷◌, ltb, not, ◌==◌, if◌then◌else◌,
}
use almorina_os.Prelude.Store.{update}
use almorina_os.Prelude.Fault.{◌>>=◌}
use almorina_os.Cstring.{Memory, strcmp, strlen, strncpy}
use almorina_os.Fs.{Fs, num_of_blocks_in_inode, fs_create_inode}
use almorina_os.Fs.Word.{load, store}
use almorina_os.Fs.Contents.{block_at, ensure_block}

-- FS_MAX_FILENAME_SIZE
abbrev pub fs_max_filename_size : ℕ
fs_max_filename_size = 123

-- sizeof(fs_dir_entry), and where its fields stand.
abbrev pub entry_size : ℕ
entry_size = 136

abbrev pub entry_name : ℕ → ℕ
entry_name ent = ent + 8

abbrev pub entry_taken : ℕ → ℕ
entry_taken ent = ent + 131

abbrev pub entry_inode : ℕ → Memory → ℕ
entry_inode ent m = load 8 ent m

abbrev pub entries_in_block : ℕ
entries_in_block = 31

-- `enum INODE_TYPE`
abbrev pub inode_type_file : ℕ
inode_type_file = 0

abbrev pub inode_type_dir : ℕ
inode_type_dir = 1

-- The inode of the first of `n` entries that has the name; the flag is not looked at.
unfoldable pub find_entry : ℕ → ℕ → ℕ → ℕ → Memory → Option (Option ℕ)
find_entry fuel zero ent filename m = some none
find_entry fuel (suc n) ent filename m = strcmp fuel (entry_name ent) filename m >>= λ r.
    let rest = find_entry fuel n (ent + entry_size) filename m in
    if r == 0 then some (some (entry_inode ent m)) else rest

unfoldable pub find_in_blocks : ℕ → List ℕ → ℕ → Memory → Option (Option ℕ)
find_in_blocks fuel [] filename m = some none
find_in_blocks fuel (b ∷ bs) filename m =
    let rest = find_in_blocks fuel bs filename m in
    if b == 0
    then rest
    else (find_entry fuel entries_in_block b filename m >>= λ o. elim o [
      | none ↦ rest
      | some p ↦ some (some p)
    ])

-- The inode's address, or 0.
unfoldable pub fs_get_inode_by_filename : ℕ → ℕ → ℕ → Fs → Option ℕ
fs_get_inode_by_filename fuel dir filename fs =
    find_in_blocks fuel (fs.inode dir).blocks filename fs.mem >>= λ o. elim o [
      | none ↦ some 0
      | some p ↦ some p
    ]

-- What `fs_dir_add_entry` returns: an address or 0, or nothing, by its `return` without a value.
pub data Added : Type 0 where
  inode : ℕ → Added
  no_value : Added

-- A free entry gets the name and a new inode.
unfoldable pub take_entry : ℕ → ℕ → ℕ → ℕ → ℕ → Fs → Option (Added × Fs)
take_entry fuel ent filename filename_size type fs =
    let (p, fs') = fs_create_inode type (record fs { mem = update fs.mem (entry_taken ent) 1 }) in
    strncpy fuel (entry_name ent) filename
      (if ltb filename_size fs_max_filename_size then filename_size else fs_max_filename_size)
      (store 8 ent p fs'.mem)
    >>= λ m. some (inode p, record fs' { mem = m })

-- The loop over `n` entries; the inner `none` means that it found no free one.
unfoldable pub add_entry : ℕ → ℕ → ℕ → ℕ → ℕ → ℕ → Fs → Option (Option Added × Fs)
unfolding take_entry
add_entry fuel zero ent filename filename_size type fs = some (none, fs)
add_entry fuel (suc n) ent filename filename_size type fs =
    strcmp fuel (entry_name ent) filename fs.mem >>= λ r.
    let rest = add_entry fuel n (ent + entry_size) filename filename_size type fs in
    if r == 0
    then some (some no_value, fs)
    else if fs.mem (entry_taken ent) == 0
    then (take_entry fuel ent filename filename_size type fs >>= λ a. some (some a.0, a.1))
    else rest

unfoldable pub add_in_blocks : ℕ → ℕ → ℕ → ℕ → ℕ → ℕ → ℕ → Fs → Option (Added × Fs)
add_in_blocks fuel zero dir i filename filename_size type fs = some (inode 0, fs)
add_in_blocks fuel (suc n) dir i filename filename_size type fs =
    let fs' = ensure_block dir i fs in
    add_entry fuel entries_in_block (block_at dir i fs') filename filename_size type fs' >>= λ a.
    elim a.0 [
      | some result ↦ some (result, a.1)
      | none ↦ add_in_blocks fuel n dir (i + 1) filename filename_size type a.1
    ]

unfoldable pub fs_dir_add_entry : ℕ → ℕ → ℕ → ℕ → Fs → Option (Added × Fs)
fs_dir_add_entry fuel dir filename type fs =
    let node = fs.inode dir in
    if not (node.mode == inode_type_dir)
    then some (inode 0, fs)
    else (strlen fuel filename fs.mem >>= λ size.
        add_in_blocks fuel num_of_blocks_in_inode dir 0 filename size type fs)
