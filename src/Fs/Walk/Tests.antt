-- ===== src/Fs/Walk/Tests.antt =====
-- The path "a/b" at 100.
use almorina_os.Prelude.{◌≡◌, refl, arith, some, [], ◌∷◌, replicate, ◌==◌, if◌then◌else◌}
use almorina_os.Cstring.{Memory}
use almorina_os.Fs.{Fs, Superblock, Inode}
use almorina_os.Fs.Walk.{fs_extract_filename_from_path}
use almorina_os.Fs.Walk.Filename.{fs_extract_filename_from_path_lem}

abbrev path_memory : Memory
path_memory q = if q == 100 then 97 else if q == 101 then b'/' else if q == 102 then 98 else 0

abbrev path_device : Superblock
path_device = record {
  inodes_count = 2;
  blocks_count = 2;
  first_inode = 1000;
  first_data_block = 8192;
  block_size = 4096;
  inodes_bitset = 300;
  blocks_bitset = 301;
}

abbrev no_blocks : Inode
no_blocks = record { blocks = replicate 15 0; mode = 1; size = 0; atime = 0; ctime = 0; mtime = 0 }

abbrev path_fs : Fs
path_fs = record { device = path_device; inode = λ _. no_blocks; mem = path_memory }

fs_extract_filename_from_path_lem_example :
    fs_extract_filename_from_path 4 100 path_memory ≡ some (102, 1)
fs_extract_filename_from_path_lem_example =
    fs_extract_filename_from_path_lem (97 ∷ []) (98 ∷ []) 4 100 path_memory (omega arith)
      (omega arith, tt) (refl, omega arith, (refl, omega arith, (refl, omega arith, refl)))
