-- ===== src/Fs.antt =====
-- The RAM file system, src/c-code/fs.c: how it is laid out in the block of memory that it asks the
-- heap for, and how inodes and blocks are taken. The bit sets and the data blocks are bytes of
-- memory; `inode a` is the `fs_inode_t` that stands at address `a`.
pub mod Layout
pub mod Create
pub mod Word
pub mod Contents
pub mod Directory
pub mod Walk
mod Tests
use almorina_os.Prelude.{
  ℕ, zero, suc, ◌+◌, ◌-◌, ◌*◌, ◌^◌, ◌%◌, Option, none, some, List, ltb, ◌==◌, if◌then◌else◌,
  replicate,
}
use almorina_os.Prelude.Words.{u32}
use almorina_os.Prelude.Store.{update}
use almorina_os.Cstring.{Memory, memset}
use almorina_os.Bitset.{bitset_size, bitset_readbit, bitset_setbit}
use almorina_os.Heap.{Heap, malloc}

abbrev pub block_size : ℕ
block_size = 4096

abbrev pub num_of_blocks_in_inode : ℕ
num_of_blocks_in_inode = 15

-- sizeof(fs_superblock_t): five words of 4 bytes, padded, and two pointers.
abbrev pub superblock_size : ℕ
superblock_size = 40

-- sizeof(fs_inode_t): a padded byte, four words and fifteen block addresses.
abbrev pub inode_size : ℕ
inode_size = 80

-- `fs_superblock_t`
pub record Superblock : Type 0 where
  pub inodes_count : ℕ
  pub blocks_count : ℕ
  pub first_inode : ℕ
  pub first_data_block : ℕ
  pub block_size : ℕ
  pub inodes_bitset : ℕ
  pub blocks_bitset : ℕ

-- `fs_inode_t`
pub record Inode : Type 0 where
  pub mode : ℕ
  pub size : ℕ
  pub atime : ℕ
  pub ctime : ℕ
  pub mtime : ℕ
  pub blocks : List ℕ

pub record Fs : Type 0 where
  pub device : Superblock
  pub inode : ℕ → Inode
  pub mem : Memory

-- The size that `fs_initialize` asks for, before it becomes an `int`.
abbrev pub fs_bytes : ℕ → ℕ → ℕ
fs_bytes inodes_count blocks_count =
    superblock_size
    + bitset_size inodes_count
    + bitset_size blocks_count
    + inode_size * inodes_count
    + block_size * blocks_count

-- An `int` passed for a `uint64_t`.
abbrev pub int_to_u64 : ℕ → ℕ
int_to_u64 n = if ltb n (2 ^ 31) then n else n + 2 ^ 64 - 2 ^ 32

-- `superblock + n` on a `fs_superblock_t*` moves by n structures.
abbrev pub superblock_at : ℕ → ℕ → ℕ
superblock_at superblock n = superblock + n * superblock_size

-- The fields at the address `superblock`; the two that hold addresses of data are `uint32_t`.
unfoldable pub superblock_fields : ℕ → ℕ → ℕ → Superblock
superblock_fields superblock inodes_count blocks_count =
    let first_inode = u32 (
      superblock_at superblock
        (superblock_size + bitset_size inodes_count + bitset_size blocks_count)) in
    record {
      inodes_count = inodes_count;
      blocks_count = blocks_count;
      first_inode = first_inode;
      first_data_block = u32 (first_inode + inodes_count * inode_size);
      block_size = block_size;
      inodes_bitset = superblock_at superblock superblock_size;
      blocks_bitset = superblock_at superblock (superblock_size + bitset_size inodes_count);
    }

-- The address of the superblock, its fields, and the heap; `none` means that `malloc` ran out of
-- fuel. The result of `malloc` is not tested.
pub fs_initialize : ℕ → ℕ → ℕ → Heap → Option (ℕ × Superblock × Heap)
unfolding superblock_fields
fs_initialize fuel inodes_count blocks_count h =
    elim (malloc fuel (int_to_u64 (u32 (fs_bytes inodes_count blocks_count))) h) [
      | none ↦ none
      | some (p, h') ↦ some (p, superblock_fields p inodes_count blocks_count, h')
    ]

-- The search for a clear bit from `i` on, over the `n` indices that are left: the index where the
-- loop stops.
unfoldable pub find_clear : ℕ → ℕ → ℕ → Memory → ℕ
find_clear zero i bitset m = i
find_clear (suc n) i bitset m =
    let rest = find_clear n (i + 1) bitset m in if bitset_readbit bitset i m == 0 then i else rest

-- The inode's address, or 0.
pub fs_create_inode : ℕ → Fs → ℕ × Fs
fs_create_inode type fs =
    let d = fs.device in
    let i = find_clear d.inodes_count 0 d.inodes_bitset fs.mem in
    let p = d.first_inode + i * inode_size in
    if i == d.inodes_count then (0, fs) else (
      p,
      record {
        device = d;
        inode = update fs.inode p (record {
          mode = type;
          size = 0;
          atime = 0;
          ctime = 0;
          mtime = 0;
          blocks = replicate num_of_blocks_in_inode 0;
        });
        mem = bitset_setbit d.inodes_bitset i 1 fs.mem;
      },
    )

-- The block's address, or 0. The search index is `-1` in the source if no bit is clear.
pub fs_create_block : Fs → ℕ × Fs
fs_create_block fs =
    let d = fs.device in
    let i = find_clear d.blocks_count 0 d.blocks_bitset fs.mem in
    let block = u32 (d.first_data_block + i * block_size) in
    if i == d.blocks_count then (0, fs) else (
      block,
      record fs { mem = memset block 0 block_size (bitset_setbit d.blocks_bitset i 1 fs.mem) },
    )
