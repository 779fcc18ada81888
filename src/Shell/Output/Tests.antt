-- ===== src/Shell/Output/Tests.antt =====
-- A directory with a file and a directory in it, and two variables.
use almorina_os.Prelude.{ℕ, ◌≡◌, refl, arith, true, some, [], ◌∷◌, replicate, ◌==◌, if◌then◌else◌}
use almorina_os.Cstring.{Memory}
use almorina_os.Heap.{MemSegment}
use almorina_os.Fs.{Fs, Superblock, Inode}
use almorina_os.Fs.Word.{load}
use almorina_os.Shell.Variables.{ShellList, Variables, string}
use almorina_os.Shell.Output.{tree}
use almorina_os.Shell.Output.Preorder.{empty, leaf, branch, shown, Grows, entries_of, tree_lem}

-- The first directory's block is at 8192; its first two entries are taken, and lead to the inodes 1
-- and 2.
abbrev tree_memory : Memory
tree_memory q =
    if q == 8192
    then 1
    else if q == 8323
    then 1
    else if q == 8328
    then 2
    else if q == 8459
    then 1
    else 0

abbrev directory : Inode
directory = record {
  blocks = 8192 ∷ replicate 14 0;
  mode = 1;
  size = 0;
  atime = 0;
  ctime = 0;
  mtime = 0;
}

abbrev empty_directory : Inode
empty_directory = record directory { blocks = replicate 15 0 }

abbrev file : Inode
file = record empty_directory { mode = 0 }

abbrev tree_device : Superblock
tree_device = record {
  inodes_count = 2;
  blocks_count = 2;
  first_inode = 1000;
  first_data_block = 8192;
  block_size = 4096;
  inodes_bitset = 300;
  blocks_bitset = 301;
}

abbrev tree_fs : Fs
tree_fs = record {
  device = tree_device;
  inode = λ p. if p == 1 then file else if p == 2 then empty_directory else directory;
  mem = tree_memory;
}

grows : Grows tree_fs (entries_of tree_fs 0) (leaf 8192 (branch 8328 empty empty))
unfolding load
grows = (8328 ∷ [], refl, refl, ([], refl, refl, refl, refl))

tree_lem_example : tree 2 0 tree_fs ≡ some (shown tree_fs 0 (leaf 8192 (branch 8328 empty empty)))
tree_lem_example = tree_lem (leaf 8192 (branch 8328 empty empty)) 2 0 tree_fs (omega arith) grows

-- "x" at 100 and "y" at 102, each the name and the value of a variable.
abbrev names : Memory
names q = if q == 100 then b'x' else if q == 102 then b'y' else 0

abbrev nodes : ℕ → ShellList
nodes p =
    if p == 500
    then record { next = 600; name = 100; data_at = 102; type = string }
    else record { next = 0; name = 102; data_at = 100; type = string }

abbrev segment : MemSegment
segment = record { len = 1000; free = true; next = 0 }

abbrev two_variables : Variables
two_variables = record {
  shell_variables = 500;
  node = nodes;
  mem = names;
  heap = record { heap = 50000; free_seg = 50000; cell = λ _. segment };
}
