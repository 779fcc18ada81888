-- ===== src/Fs/Layout.antt =====
-- Where the parts of the file system lie, against the memory that was asked for.
use almorina_os.Prelude.{ℕ, ◌+◌, ◌*◌, ◌≤◌, ◌<◌, ◌^◌}
use almorina_os.Bitset.{bitset_size}
use almorina_os.Fs.{Superblock, superblock_size, inode_size, block_size}

-- The end of the last data block.
abbrev pub data_end : Superblock → ℕ
data_end d = d.first_data_block + d.blocks_count * block_size

-- Each part of the file system begins behind the one before, and is large enough.
pub record IsLaidOut (p : ℕ) (d : Superblock) : Type 0 where
  pub inode_bits : p + superblock_size ≤ d.inodes_bitset
  pub block_bits : d.inodes_bitset + bitset_size d.inodes_count ≤ d.blocks_bitset
  pub inodes : d.blocks_bitset + bitset_size d.blocks_count ≤ d.first_inode
  pub data_blocks : d.first_inode + d.inodes_count * inode_size ≤ d.first_data_block
  pub in_memory : data_end d < 2 ^ 32
