-- ===== src/Shell/Edit.antt =====
-- The commands `edit` and `cat` of src/c-code/shell.c. They take the inode that `find_file` returns
-- for a directory entry, and so read the address of the file's inode from the first eight bytes of
-- the inode itself: its mode, three bytes of padding, and its size. What stands in the padding of an
-- inode is an argument.
pub mod Shown
mod Tests
use almorina_os.Prelude.{ℕ, ◌+◌, ◌*◌, ◌^◌, Option, none, some, List, [], ◌∷◌, ◌==◌, if◌then◌else◌}
use almorina_os.Prelude.Words.{u8, u32}
use almorina_os.Prelude.Fault.{◌>>=◌}
use almorina_os.Cstring.{memset}
use almorina_os.Heap.{free}
use almorina_os.Fs.{Fs}
use almorina_os.Fs.Contents.{fs_inode_write_data, fs_inode_get_data}
use almorina_os.Keyboard.Line.{fgets}
use almorina_os.Shell.Files.{Session, Answer, silent, with_fs, with_heap, find_file}

-- `file->inode`
unfoldable pub inode_of_entry : (ℕ → ℕ) → ℕ → Fs → ℕ
inode_of_entry padding file fs =
    let node = fs.inode file in u8 node.mode + 2 ^ 8 * (padding file) + 2 ^ 32 * u32 node.size

-- `edit` behind `find_file`: the contents are typed into the array at `contents`, of 100 bytes. The
-- keys that are left are returned.
unfoldable pub edit_found : (ℕ → ℕ) → ℕ → ℕ → ℕ → List ℕ → Session → Option (Session × List ℕ)
edit_found padding fuel contents file keys s =
    let fs = s.fs in
    fgets keys contents 100 (memset contents 0 100 fs.mem) >>= λ typed.
    let fs' : Fs = record fs { mem = typed.0 } in
    fs_inode_write_data fuel (inode_of_entry padding file fs') contents fs' >>= λ fs''.
    some (with_fs fs'' s, typed.1)

-- `cat` behind `find_file`: the contents' address, and the session before they are freed.
unfoldable pub cat_found : (ℕ → ℕ) → ℕ → ℕ → Session → Option (ℕ × Session)
cat_found padding fuel file s =
    fs_inode_get_data fuel (inode_of_entry padding file s.fs) s.fs s.heap >>= λ r.
    let (p, fs', h) = r in some (p, with_heap h (with_fs fs' s))

unfoldable pub edit :
    (ℕ → ℕ) → ℕ → ℕ → ℕ → ℕ → List ℕ → List ℕ → Session → Option (Answer × Session × List ℕ)
edit padding fuel buffer inner contents args keys s = find_file fuel buffer inner args s >>= λ r.
    let (file, answer, s') = r in
    if file == 0
    then some (answer, s', keys)
    else (edit_found padding fuel contents file keys s' >>= λ t. some (silent, t.0, t.1))

-- The address of what is printed, or 0.
unfoldable pub cat : (ℕ → ℕ) → ℕ → ℕ → ℕ → List ℕ → Session → Option (ℕ × Answer × Session)
cat padding fuel buffer inner args s = find_file fuel buffer inner args s >>= λ r.
    let (file, answer, s') = r in
    if file == 0
    then some (0, answer, s')
    else (cat_found padding fuel file s' >>= λ t.
        let s'' = t.1 in free fuel t.0 s''.heap >>= λ f. some (t.0, silent, with_heap f.1 s''))
