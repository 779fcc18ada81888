-- ===== src/Fs/Contents/Tests.antt =====
-- A file of one block at 8192, and a text of two bytes at 100.
use almorina_os.Prelude.{
  ℕ, ◌≢◌, ◌≡◌, inl, inr, refl, arith, true, some, [], ◌∷◌, replicate, ◌==◌, if◌then◌else◌,
}
use almorina_os.Cstring.{Memory}
use almorina_os.Cstring.Bytes.{IsString}
use almorina_os.Heap.{Heap, MemSegment, malloc, malloc_loop, split}
use almorina_os.Fs.{Fs, Superblock, Inode}
use almorina_os.Fs.Contents.{fs_inode_write_data, fs_inode_get_data}
use almorina_os.Fs.Contents.RoundTrip.{get_data-write_data}

abbrev segment : MemSegment
segment = record { len = 1000; free = true; next = 0 }

abbrev free_heap : Heap
free_heap = record { heap = 50000; free_seg = 50000; cell = λ _. segment }

abbrev split_heap : Heap
split_heap = split 50000 3 free_heap

malloc_three : malloc 3 3 free_heap ≡ some (50024, split_heap)
unfolding malloc malloc_loop
malloc_three = refl

abbrev file_device : Superblock
file_device = record {
  inodes_count = 2;
  blocks_count = 2;
  first_inode = 1000;
  first_data_block = 8192;
  block_size = 4096;
  inodes_bitset = 300;
  blocks_bitset = 301;
}

abbrev one_block : Inode
one_block = record {
  blocks = 8192 ∷ replicate 14 0;
  mode = 0;
  size = 0;
  atime = 0;
  ctime = 0;
  mtime = 0;
}

-- "hi" and a NUL.
abbrev text_memory : Memory
text_memory q = if q == 100 then 104 else if q == 101 then 105 else 0

abbrev file_fs : Fs
file_fs = record { device = file_device; inode = λ _. one_block; mem = text_memory }

get_data-write_data_example :
    (fs' : Fs) × (fs'' : Fs) × (fs_inode_write_data 3 1000 100 file_fs ≡ some fs')
    × ((fs'.inode 1000).size ≡ 2)
    × IsString fs'.mem 8192 (104 ∷ 105 ∷ [])
    × (fs_inode_get_data 3 1000 fs' free_heap ≡ some (50024, fs'', split_heap))
    × IsString fs''.mem 50024 (104 ∷ 105 ∷ [])
    × ((q : ℕ) → q ≢ 1000 → fs'.inode q ≡ one_block)
get_data-write_data_example =
    get_data-write_data 104 (105 ∷ []) 3 1000 8192 100 50024 file_fs free_heap split_heap
      (omega arith) (omega arith) (omega arith) refl (refl, omega arith, (refl, omega arith, refl))
      (inl (omega arith)) (inr (omega arith)) malloc_three
