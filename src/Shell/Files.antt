-- ===== src/Shell/Files.antt =====
-- The commands of src/c-code/shell.c on files: `touch`, `mkdir`, `ls`, `cd`, and `find_file`. The
-- arguments behind the command's name are the list of their pointers; `buffer` is where the command's
-- own array `filename` stands, and `inner` that of `fs_get_inode_dir`. What is printed is an `Answer`.
-- `edit` and `cat` take what `find_file` returns, an inode, for a directory entry, and are left out,
-- as are the commands that only print.
use almorina_os.Prelude.{ℕ, zero, suc, ◌+◌, Option, some, List, [], ◌∷◌, ◌++◌, ◌==◌, if◌then◌else◌}
use almorina_os.Prelude.Fault.{◌>>=◌}
use almorina_os.Cstring.{Memory}
use almorina_os.Heap.{Heap, free}
use almorina_os.Fs.{Fs}
use almorina_os.Fs.Directory.{
  entry_size, entry_name, entry_taken, entries_in_block, fs_dir_add_entry, fs_get_inode_by_filename,
  inode_type_file, inode_type_dir,
}
use almorina_os.Fs.Walk.{fs_get_inode_dir, fs_extract_filename_from_path, copy_name, cleared}
use almorina_os.Shell.Combine.{shell_combine_strings}

-- The globals `current_dir` and `ramfs_root`, the file system and the heap.
pub record Session : Type 0 where
  pub current_dir : ℕ
  pub ramfs_root : ℕ
  pub fs : Fs
  pub heap : Heap

-- The messages of the commands; a name is given by its address.
pub data Answer : Type 0 where
  path_doesnt_exist : Answer
  new_entry : ℕ → ℕ → Answer
  no_file : ℕ → Answer
  names : List ℕ → Answer
  silent : Answer

abbrev pub with_fs : Fs → Session → Session
with_fs fs s = record s { fs = fs }

abbrev pub with_heap : Heap → Session → Session
with_heap h s = record s { heap = h }

-- The path's address, the directory it leads to, or 0, and the session.
unfoldable pub lookup_dir : ℕ → ℕ → List ℕ → Session → Option (ℕ × ℕ × Session)
lookup_dir fuel inner args s =
    let fs = s.fs in
    shell_combine_strings fuel args fs.mem s.heap >>= λ r.
    let (path, m, h) = r in
    fs_get_inode_dir fuel inner s.ramfs_root s.current_dir path (record fs { mem = m }) >>= λ d.
    some (path, d.0, with_heap h (with_fs d.1 s))

-- The name is copied to the array, which is cleared first. The source passes `len` beside the call
-- that sets it; the model takes the value that it is set to.
unfoldable pub take_filename : ℕ → ℕ → ℕ → Session → Option Session
take_filename fuel buffer path s =
    let fs = cleared buffer s.fs in
    fs_extract_filename_from_path fuel path fs.mem >>= λ name.
    copy_name fuel buffer name.0 name.1 fs >>= λ fs'. some (with_fs fs' s)

unfoldable pub free_path : ℕ → ℕ → Session → Option Session
free_path fuel path s = free fuel path s.heap >>= λ r. some (with_heap r.1 s)

-- `touch` and `mkdir`, by the type of the entry. The path is freed at the end only.
unfoldable pub make_entry : ℕ → ℕ → ℕ → ℕ → List ℕ → Session → Option (Answer × Session)
make_entry fuel buffer inner type args s = lookup_dir fuel inner args s >>= λ found.
    let (path, dir, s1) = found in
    let made = take_filename fuel buffer path s1 >>= λ s2.
    fs_dir_add_entry fuel dir buffer type s2.fs >>= λ a.
    free_path fuel path (with_fs a.1 s2) >>= λ s3. some (new_entry buffer dir, s3) in
    if dir == 0 then some (path_doesnt_exist, s1) else made

unfoldable pub touch : ℕ → ℕ → ℕ → List ℕ → Session → Option (Answer × Session)
touch fuel buffer inner args s = make_entry fuel buffer inner inode_type_file args s

unfoldable pub mkdir : ℕ → ℕ → ℕ → List ℕ → Session → Option (Answer × Session)
mkdir fuel buffer inner args s = make_entry fuel buffer inner inode_type_dir args s

-- The file's inode, or 0; the path is freed only when the file is found.
unfoldable pub find_file : ℕ → ℕ → ℕ → List ℕ → Session → Option (ℕ × Answer × Session)
find_file fuel buffer inner args s = lookup_dir fuel inner args s >>= λ found.
    let (path, dir, s1) = found in
    let searched = take_filename fuel buffer path s1 >>= λ s2.
    fs_get_inode_by_filename fuel dir buffer s2.fs >>= λ file.
    let freed = free_path fuel path s2 >>= λ s3. some (file, silent, s3) in
    if file == 0 then some (0, no_file buffer, s2) else freed in
    if dir == 0 then some (0, path_doesnt_exist, s1) else searched

-- What is found need not be a directory.
unfoldable pub cd : ℕ → ℕ → ℕ → List ℕ → Session → Option (Answer × Session)
cd fuel buffer inner args s = find_file fuel buffer inner args s >>= λ r.
    let (file, answer, s') = r in
    if file == 0 then some (answer, s') else some (answer, record s' { current_dir = file })

-- The names of the taken ones of `n` entries.
unfoldable pub taken_names : ℕ → ℕ → Memory → List ℕ
taken_names zero ent m = []
taken_names (suc n) ent m =
    let rest = taken_names n (ent + entry_size) m in
    if m (entry_taken ent) == 1 then entry_name ent ∷ rest else rest

unfoldable pub names_in_blocks : List ℕ → Memory → List ℕ
unfolding taken_names
names_in_blocks [] m = []
names_in_blocks (b ∷ bs) m =
    let rest = names_in_blocks bs m in
    if b == 0 then rest else taken_names entries_in_block b m ++ rest

-- The path is never freed.
unfoldable pub ls : ℕ → ℕ → List ℕ → Session → Option (Answer × Session)
ls fuel inner args s = lookup_dir fuel inner args s >>= λ found.
    let (path, dir, s1) = found in
    let fs = s1.fs in
    let node = fs.inode dir in
    if dir == 0
    then some (path_doesnt_exist, s1)
    else some (names (names_in_blocks node.blocks fs.mem), s1)
