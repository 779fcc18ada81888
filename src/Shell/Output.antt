-- ===== src/Shell/Output.antt =====
-- The commands of src/c-code/shell.c that print: `echo`, `vars`, `set`, `help`, `tree`, and the title.
-- What they hand to `printf`, `puts` and `putc` is a list of pieces, in order; a string and a variable's
-- value are given by what they are, a directive by its argument.
pub mod Listed
pub mod Preorder
mod Tests
use almorina_os.Prelude.{
  ℕ, zero, suc, ◌+◌, ◌-◌, Option, none, some, List, [], ◌∷◌, ◌++◌, map, replicate, ◌==◌,
  if◌then◌else◌,
}
use almorina_os.Prelude.Store.{update}
use almorina_os.Prelude.Fault.{◌>>=◌}
use almorina_os.Cstring.{Memory, memset, strlen, strncpy, strcmp}
use almorina_os.Heap.{Heap, free}
use almorina_os.Fs.{Fs}
use almorina_os.Fs.Word.{load}
use almorina_os.Fs.Directory.{
  entry_size, entry_name, entry_taken, entry_inode, entries_in_block, inode_type_dir,
}
use almorina_os.Shell.Combine.{shell_combine_strings}
use almorina_os.Shell.Execute.{shell_callback}
use almorina_os.Shell.Variables.{
  ShellType, int, float, string, ShellList, Variables, Number, variables_push,
}

-- Text of the format, a string by its address, the argument of `%d`, that of `%f`, and a colour.
pub data Piece : Type 0 where
  text : List ℕ → Piece
  string_at : ℕ → Piece
  decimal : ℕ → Piece
  floating : ℕ → Piece
  color : ℕ → Piece

-- The cases of the `switch` on the type.
unfoldable pub print_value : ShellList → Memory → Piece
print_value s m = elim s.type [
  | int ↦ decimal (load 4 s.data_at m)
  | float ↦ floating (load 4 s.data_at m)
  | string ↦ string_at s.data_at
]

-- The loop of `echo` over the variables: every one with the name is printed.
unfoldable pub echo_variables : ℕ → ℕ → ℕ → (ℕ → ShellList) → Memory → Option (List Piece)
unfolding print_value
echo_variables zero curr name node m = none
echo_variables (suc fuel) curr name node m =
    let s = node curr in
    let rest = echo_variables fuel s.next name node m in
    if curr == 0
    then some []
    else (strcmp fuel s.name name m >>= λ r. rest >>= λ pieces.
        some (if r == 0 then print_value s m ∷ text (b' ' ∷ []) ∷ pieces else pieces))

-- The array `var_name` of 100 bytes, at `buffer`, takes what stands behind the '$'.
unfoldable pub copy_var_name : ℕ → ℕ → ℕ → Memory → Option Memory
copy_var_name fuel buffer arg m = strlen fuel arg m >>= λ len.
    strncpy fuel buffer (arg + 1) (len - 1) (memset buffer 0 100 m) >>= λ m'.
    some (update m' (buffer + len) 0)

-- One argument.
unfoldable pub echo_argument : ℕ → ℕ → ℕ → Variables → Option (List Piece × Variables)
unfolding echo_variables copy_var_name
echo_argument fuel buffer arg s =
    let variable = copy_var_name fuel buffer arg s.mem >>= λ m.
    echo_variables fuel s.shell_variables buffer s.node m >>= λ pieces.
    some (pieces, record s { mem = m }) in
    if s.mem arg == b'$' then variable else some (string_at arg ∷ text (b' ' ∷ []) ∷ [], s)

-- `args` are the arguments behind the command.
unfoldable pub echo : ℕ → ℕ → List ℕ → Variables → Option (List Piece × Variables)
echo fuel buffer [] s = some (text (10 ∷ []) ∷ [], s)
echo fuel buffer (arg ∷ args) s = echo_argument fuel buffer arg s >>= λ r.
    echo fuel buffer args r.1 >>= λ t. some (r.0 ++ t.0, t.1)

-- `printf("$%s = ", ...)` and the value with its newline.
unfoldable pub var_line : ShellList → Memory → List Piece
unfolding print_value
var_line s m =
    text (b'$' ∷ [])
    ∷ string_at s.name
    ∷ text (b' ' ∷ b'=' ∷ b' ' ∷ [])
    ∷ print_value s m
    ∷ text (10 ∷ [])
    ∷ []

unfoldable pub vars_loop : ℕ → ℕ → (ℕ → ShellList) → Memory → Option (List Piece)
unfolding var_line
vars_loop zero curr node m = none
vars_loop (suc fuel) curr node m =
    let s = node curr in
    let rest = vars_loop fuel s.next node m in
    if curr == 0 then some [] else (rest >>= λ pieces. some (var_line s m ++ pieces))

unfoldable pub vars : ℕ → Variables → Option (List Piece)
unfolding vars_loop
vars fuel s = vars_loop fuel s.shell_variables s.node s.mem

-- `name` is `argv[1]`, and `args` are those behind it.
unfoldable pub set :
    (ℕ → Memory → Number) → ℕ → ℕ → List ℕ → Variables → Option (List Piece × Variables)
set eval fuel name args s = shell_combine_strings fuel args s.mem s.heap >>= λ r.
    let (joined, m, h) = r in
    variables_push eval fuel name joined (record s { mem = m; heap = h }) >>= λ t.
    free fuel joined t.heap >>= λ f.
    some (text (b'[' ∷ []) ∷ string_at name ∷ text (b']' ∷ 10 ∷ []) ∷ [], record t { heap = f.1 })

-- DARKGREY
abbrev pub dark_grey : ℕ
dark_grey = 8

unfoldable pub help_names : List (List ℕ × ℕ) → List Piece
help_names [] = text (10 ∷ []) ∷ []
help_names (c ∷ cs) = text c.0 ∷ text (b' ' ∷ []) ∷ help_names cs

unfoldable pub help : List Piece
unfolding help_names
help = color dark_grey ∷ help_names shell_callback

-- The addresses of the taken ones of `n` entries from `ent` on, and of those in the blocks.
unfoldable pub taken_entries : ℕ → ℕ → Memory → List ℕ
taken_entries zero ent m = []
taken_entries (suc n) ent m =
    let rest = taken_entries n (ent + entry_size) m in
    if m (entry_taken ent) == 1 then ent ∷ rest else rest

unfoldable pub entries_in_blocks : List ℕ → Memory → List ℕ
unfolding taken_entries
entries_in_blocks [] m = []
entries_in_blocks (b ∷ bs) m =
    let rest = entries_in_blocks bs m in
    if b == 0 then rest else taken_entries entries_in_block b m ++ rest

abbrev pub bar : Piece
bar = text (b'|' ∷ b'-' ∷ b'-' ∷ b'-' ∷ [])

unfoldable pub entry_line : ℕ → ℕ → Memory → List Piece
entry_line level ent m =
    replicate level bar
    ++ string_at (entry_name ent)
      ∷ text (b' ' ∷ b'-' ∷ b'>' ∷ b' ' ∷ [])
      ∷ decimal (entry_inode ent m)
      ∷ text (10 ∷ [])
      ∷ []

-- The body of the loops over the entries; `inner` is the call for a directory in the directory.
unfoldable pub tree_entries : (ℕ → Option (List Piece)) → ℕ → List ℕ → Fs → Option (List Piece)
unfolding entry_line
tree_entries inner level [] fs = some []
tree_entries inner level (ent ∷ ents) fs =
    let p = entry_inode ent fs.mem in
    let node = fs.inode p in
    (if node.mode == inode_type_dir then inner p else some []) >>= λ below.
    tree_entries inner level ents fs >>= λ rest.
    some (entry_line level ent fs.mem ++ (below ++ rest))

-- Recursive in the source; the fuel bounds its depth. Nothing is written, so that the entries of a
-- directory are the same throughout.
unfoldable pub print_fs_tree : ℕ → ℕ → ℕ → Fs → Option (List Piece)
unfolding tree_entries entries_in_blocks
print_fs_tree zero dir level fs = none
print_fs_tree (suc fuel) dir level fs =
    let node = fs.inode dir in
    tree_entries (λ p. print_fs_tree fuel p (level + 1) fs) level
      (entries_in_blocks node.blocks fs.mem) fs

unfoldable pub tree : ℕ → ℕ → Fs → Option (List Piece)
unfolding print_fs_tree
tree fuel current_dir fs = print_fs_tree fuel current_dir 0 fs
