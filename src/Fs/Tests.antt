-- ===== src/Fs/Tests.antt =====
-- A file system with two inodes and two blocks.
use almorina_os.Prelude.{ℕ, ◌+◌, ◌*◌, ◌<◌, ◌≡◌, ◌≢◌, ◌⊎◌, refl, arith}
use almorina_os.Bitset.{bitset_readbit, bitset_setbit}
use almorina_os.Fs.{
  Fs, Superblock, find_clear, inode_size, block_size, fs_create_inode, fs_create_block,
}
use almorina_os.Fs.Create.{Took, DataBehind, fresh_inode, fs_create_inode_lem, fs_create_block_lem}

abbrev small_device : Superblock
small_device = record {
  inodes_count = 2;
  blocks_count = 2;
  first_inode = 1000;
  first_data_block = 2000;
  block_size = 4096;
  inodes_bitset = 100;
  blocks_bitset = 101;
}

abbrev small_fs : Fs
small_fs = record { device = small_device; inode = λ _. fresh_inode 0; mem = λ _. 0 }

fs_create_inode_lem_example :
    let (p, fs') = fs_create_inode 1 small_fs in
    ((p ≡ 0) × (fs' ≡ small_fs) × ((j : ℕ) → j < 2 → bitset_readbit 100 j (λ _. 0) ≢ 0))
    ⊎ ((i : ℕ) × (p ≡ 1000 + i * inode_size)
        × Took 100 2 i (λ _. 0) fs'.mem
        × (fs'.inode p ≡ fresh_inode 1)
        × ((q : ℕ) → q ≢ p → fs'.inode q ≡ small_fs.inode q)
        × (fs'.device ≡ small_device))
fs_create_inode_lem_example = fs_create_inode_lem 1 small_fs (λ q. omega arith)

small_device-DataBehind : DataBehind small_device
small_device-DataBehind = record { behind = omega arith; in_memory = omega arith }

fs_create_block_lem_example :
    let (p, fs') = fs_create_block small_fs in
    ((p ≡ 0) × (fs' ≡ small_fs) × ((j : ℕ) → j < 2 → bitset_readbit 101 j (λ _. 0) ≢ 0))
    ⊎ ((i : ℕ) × (p ≡ 2000 + i * block_size)
        × (i < 2)
        × (bitset_readbit 101 i (λ _. 0) ≡ 0)
        × ((j : ℕ) → j < i → bitset_readbit 101 j (λ _. 0) ≢ 0)
        × (bitset_readbit 101 i fs'.mem ≡ 1)
        × ((j : ℕ) → j < 2 → j ≢ i → bitset_readbit 101 j fs'.mem ≡ bitset_readbit 101 j (λ _. 0))
        × ((k : ℕ) → k < block_size → fs'.mem (p + k) ≡ 0)
        × (fs'.inode ≡ small_fs.inode)
        × (fs'.device ≡ small_device))
fs_create_block_lem_example =
    fs_create_block_lem small_fs (λ q. omega arith) small_device-DataBehind

first_taken : (fs_create_inode 1 small_fs).0 ≡ 1000
unfolding fs_create_inode find_clear bitset_readbit
first_taken = refl

second_taken : (fs_create_inode 2 (fs_create_inode 1 small_fs).1).0 ≡ 1080
unfolding fs_create_inode find_clear bitset_readbit bitset_setbit
second_taken = refl
