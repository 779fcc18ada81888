-- ===== src/Shell/Edit/Tests.antt =====
-- A fresh file at 1000 with 2 in the lowest byte of its padding, so that its contents go to the inode
-- at 512, which has a block at 8192.
use almorina_os.Prelude.{ℕ, suc, ◌≡◌, inl, inr, refl, arith, true, some, [], ◌∷◌, replicate}
use almorina_os.Cstring.Bytes.{IsString}
use almorina_os.Heap.{Heap, MemSegment, malloc, malloc_loop, split}
use almorina_os.Fs.{Superblock, Inode}
use almorina_os.Shell.Files.{Session}
use almorina_os.Shell.Edit.{inode_of_entry, edit_found, cat_found}
use almorina_os.Shell.Edit.Shown.{cat_found-edit_found}

abbrev segment : MemSegment
segment = record { len = 1000; free = true; next = 0 }

abbrev free_heap : Heap
free_heap = record { heap = 50000; free_seg = 50000; cell = λ _. segment }

abbrev split_heap : Heap
split_heap = split 50000 4 free_heap

malloc_four : (fuel : ℕ) → malloc (suc fuel) 4 free_heap ≡ some (50024, split_heap)
unfolding malloc malloc_loop
malloc_four fuel = refl

abbrev small_device : Superblock
small_device = record {
  inodes_count = 2;
  blocks_count = 2;
  first_inode = 1000;
  first_data_block = 8192;
  block_size = 4096;
  inodes_bitset = 300;
  blocks_bitset = 301;
}

abbrev fresh : Inode
fresh = record {
  blocks = 8192 ∷ replicate 14 0;
  mode = 0;
  size = 0;
  atime = 0;
  ctime = 0;
  mtime = 0;
}

abbrev session : Session
session = record {
  current_dir = 2000;
  ramfs_root = 2000;
  fs = record { device = small_device; inode = λ _. fresh; mem = λ _. 0 };
  heap = free_heap;
}

abbrev padding : ℕ → ℕ
padding _ = 2

misread : inode_of_entry padding 1000 session.fs ≡ 512
unfolding inode_of_entry
misread = refl

cat_found-edit_found_example :
    (t' : Session) × (t'' : Session) × (edit_found padding 100 3000 1000
        (0 ∷ b'h' ∷ b'i' ∷ 10 ∷ [])
        session
      ≡ some (t', []))
    × (t'.fs.inode 1000 ≡ fresh)
    × IsString t'.fs.mem 8192 (b'h' ∷ b'i' ∷ 10 ∷ [])
    × ((t'.fs.inode 512).size ≡ 3)
    × (cat_found padding 100 1000 t' ≡ some (50024, t''))
    × IsString t''.fs.mem 50024 (b'h' ∷ b'i' ∷ 10 ∷ [])
cat_found-edit_found_example =
    cat_found-edit_found padding 0 b'h' (b'i' ∷ []) [] 100 3000 1000 512 8192 50024 session
      split_heap refl (omega arith) (omega arith) (omega arith) (omega arith)
      ((omega arith, omega arith, omega arith), ((omega arith, omega arith, omega arith), tt))
      (omega arith) refl (inl (omega arith)) (inr (omega arith)) (malloc_four 99)
