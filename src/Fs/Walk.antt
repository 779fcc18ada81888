-- ===== src/Fs/Walk.antt =====
-- Paths, src/c-code/fs.c: the last name of a path, and the directory that the names before it lead to.
-- `buffer` is where the local array `filename` stands, of 124 bytes. A path does not start at address
-- 0, so that no pointer falls below it.
pub mod Filename
pub mod Short
mod Tests
use almorina_os.Prelude.{
  ℕ, zero, suc, ◌+◌, ◌-◌, Bool, true, false, not, ◌&&◌, Option, none, some, ltb, ◌==◌,
  if◌then◌else◌,
}
use almorina_os.Prelude.Store.{update}
use almorina_os.Prelude.Fault.{◌>>=◌}
use almorina_os.Cstring.{Memory, memset, strncpy}
use almorina_os.Fs.{Fs}
use almorina_os.Fs.Directory.{fs_max_filename_size, inode_type_dir, fs_get_inode_by_filename}

-- `while(*(filename_end++));`: the address behind the NUL.
unfoldable pub behind_end : ℕ → ℕ → Memory → Option ℕ
behind_end zero p m = none
behind_end (suc fuel) p m =
    let rest = behind_end fuel (p + 1) m in if m p == 0 then some (p + 1) else rest

-- `while(*(--filename_end) == '/');`
unfoldable pub skip_slashes : ℕ → ℕ → Memory → Option ℕ
skip_slashes zero p m = none
skip_slashes (suc fuel) p m =
    let rest = skip_slashes fuel (p - 1) m in if m (p - 1) == b'/' then rest else some (p - 1)

-- The last address from `p` down that holds a '/' or a NUL.
unfoldable pub name_start : ℕ → ℕ → Memory → Option ℕ
name_start zero p m = none
name_start (suc fuel) p m =
    let rest = name_start fuel (p - 1) m in
    if not (m p == 0) && not (m p == b'/') then rest else some p

-- The name's address, and its length.
unfoldable pub fs_extract_filename_from_path : ℕ → ℕ → Memory → Option (ℕ × ℕ)
fs_extract_filename_from_path fuel path m = behind_end fuel path m >>= λ behind.
    skip_slashes fuel behind m >>= λ filename_end.
    name_start fuel (filename_end - 1) m >>= λ before.
    some (before + 1, filename_end - (before + 1))

-- A name is copied to the buffer, with a NUL behind it.
unfoldable pub copy_name : ℕ → ℕ → ℕ → ℕ → Fs → Option Fs
copy_name fuel buffer start len fs = strncpy fuel buffer start len fs.mem >>= λ m.
    some (record fs { mem = update m (buffer + len) 0 })

-- The loop of `fs_get_inode_dir`: the directory, or 0, and the file system with the buffer.
unfoldable pub walk : ℕ → ℕ → ℕ → ℕ → ℕ → ℕ → Fs → Option (ℕ × Fs)
walk zero buffer filename_start filename_end dir ent fs = none
walk (suc fuel) buffer filename_start filename_end dir ent fs =
    let on = walk fuel buffer filename_start (filename_end + 1) dir ent fs in
    let next = walk fuel buffer (filename_end + 1) (filename_end + 1) dir ent fs in
    let len = filename_end - filename_start in
    if fs.mem filename_end == 0
    then some (if ent == 0 then dir else ent, fs)
    else if not (fs.mem filename_end == b'/')
    then on
    else if not (ltb 1 len)
    then next
    else (copy_name fuel buffer filename_start len fs >>= λ fs'.
        fs_get_inode_by_filename fuel dir buffer fs' >>= λ found.
        let node = fs'.inode found in
        let entered = walk fuel buffer (filename_end + 1) (filename_end + 1) found found fs' in
        if not (found == 0) && node.mode == inode_type_dir then entered else some (0, fs'))

abbrev pub cleared : ℕ → Fs → Fs
cleared buffer fs = record fs { mem = memset buffer 0 (fs_max_filename_size + 1) fs.mem }

-- `root` is `ramfs_root`.
unfoldable pub fs_get_inode_dir : ℕ → ℕ → ℕ → ℕ → ℕ → Fs → Option (ℕ × Fs)
fs_get_inode_dir fuel buffer root dir path fs =
    if fs.mem path == b'/'
    then walk fuel buffer (path + 1) (path + 1) root 0 (cleared buffer fs)
    else walk fuel buffer path path dir 0 (cleared buffer fs)

-- The two arrays named `filename` stand at `buffer` and at `inner`. The source passes `len` beside the
-- call that sets it; the model takes the value that it is set to.
unfoldable pub fs_get_inode : ℕ → ℕ → ℕ → ℕ → ℕ → ℕ → Fs → Option (ℕ × Fs)
fs_get_inode fuel buffer inner root dir path fs =
    fs_get_inode_dir fuel inner root dir path fs >>= λ r.
    let fs' = cleared buffer r.1 in
    fs_extract_filename_from_path fuel path fs'.mem >>= λ name.
    copy_name fuel buffer name.0 name.1 fs' >>= λ fs''.
    fs_get_inode_by_filename fuel r.0 buffer fs'' >>= λ p. some (p, fs'')
