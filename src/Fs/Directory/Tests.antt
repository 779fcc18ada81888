-- ===== src/Fs/Directory/Tests.antt =====
-- A block of a directory at 8192: one entry is taken, with the name "a", and the rest is zero. The
-- name to look for stands at 100.
use almorina_os.Prelude.{
  ℕ, ◌+◌, ◌≡◌, ◌≢◌, inl, inr, refl, arith, some, [], ◌∷◌, replicate, ◌==◌, if◌then◌else◌,
}
use almorina_os.Cstring.{Memory}
use almorina_os.Bitset.{bitset_readbit}
use almorina_os.Fs.{Fs, Superblock, Inode}
use almorina_os.Fs.Directory.{inode, fs_dir_add_entry, fs_get_inode_by_filename}
use almorina_os.Fs.Directory.Frames.{IsNewInode}
use almorina_os.Fs.Directory.Found.{get_inode-add_entry}

abbrev directory_memory : Memory
directory_memory q = if q == 100 then 98 else if q == 8200 then 97 else if q == 8323 then 1 else 0

abbrev directory_device : Superblock
directory_device = record {
  inodes_count = 2;
  blocks_count = 2;
  first_inode = 1000;
  first_data_block = 8192;
  block_size = 4096;
  inodes_bitset = 300;
  blocks_bitset = 301;
}

abbrev one_block : Inode
one_block = record {
  blocks = 8192 ∷ replicate 14 0;
  mode = 1;
  size = 0;
  atime = 0;
  ctime = 0;
  mtime = 0;
}

abbrev directory_fs : Fs
directory_fs = record { device = directory_device; inode = λ _. one_block; mem = directory_memory }

get_inode-add_entry_example :
    (p : ℕ) × (fs' : Fs) × (fs_dir_add_entry 3 700 100 0 directory_fs ≡ some (inode p, fs'))
    × (p ≢ 0)
    × IsNewInode 0 directory_fs p fs'
    × (fs_get_inode_by_filename 3 700 100 fs' ≡ some p)
unfolding bitset_readbit
get_inode-add_entry_example =
    get_inode-add_entry 98 [] ((97 ∷ []) ∷ []) 3 700 8192 100 0 1 (replicate 14 0) directory_fs
      (omega arith) (omega arith) (omega arith, tt) (omega arith) (refl, omega arith, refl)
      (refl, refl, omega arith) (λ i lt clear. omega arith)
      ((refl, omega arith, refl), (omega arith, tt), omega arith, tt) ((refl, omega arith), tt)
      (omega arith, (refl, λ j lt. zero_bytes j)) (inl (omega arith)) (inl (omega arith))
      (inr (omega arith)) (omega arith) (omega arith) (omega arith) refl
  where
    zero_bytes : (j : ℕ) → directory_memory (8336 + j) ≡ 0
    zero_bytes j = ground arith
