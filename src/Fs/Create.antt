-- ===== src/Fs/Create.antt =====
-- How inodes and data blocks are taken.
use native.Mathlib.Decide.{ℕ_discrete}
use almorina_os.Prelude.{
  ℕ, zero, suc, ◌+◌, ◌*◌, ◌/◌, ◌≤◌, ◌<◌, ◌^◌, ◌≡◌, ◌≢◌, ◌⊎◌, refl, ap, ◌∙◌, arith, inl, inr, false,
  ◌==◌, ==→eq, Bool-cases, replicate,
}
use almorina_os.Prelude.Words.{u32}
use almorina_os.Cstring.{Memory, memset}
use almorina_os.Cstring.Fill.{memset_lem}
use almorina_os.Bitset.{bitset_readbit, bitset_setbit}
use almorina_os.Bitset.Laws.{bitset_readbit-setbit}
use almorina_os.Fs.{
  Fs, Superblock, Inode, find_clear, fs_create_inode, fs_create_block, inode_size, block_size,
}

-- The first of the `n` indices from `i` on whose bit is clear, or the index behind them.
pub record Searched (n i bitset : ℕ) (m : Memory) (r : ℕ) : Type 0 where
  pub from : i ≤ r
  pub to : r ≤ i + n
  pub taken : (j : ℕ) → i ≤ j → j < r → bitset_readbit bitset j m ≢ 0
  pub found : r < i + n → bitset_readbit bitset r m ≡ 0

pub find_clear-Searched :
    (n i bitset : ℕ) (m : Memory) → Searched n i bitset m (find_clear n i bitset m)
unfolding find_clear
find_clear-Searched zero i bitset m = record {
  from = omega arith;
  to = omega arith;
  taken = λ j lo hi. absurd (omega arith);
  found = λ h. absurd (omega arith);
}
find_clear-Searched (suc n) i bitset m = elim (Bool-cases (bitset_readbit bitset i m == 0)) [
  | inl clear ↦ rw clear (record {
    from = omega arith;
    to = omega arith;
    taken = λ j lo hi. absurd (omega arith);
    found = λ h. ==→eq _ _ clear;
  })
  | inr set ↦
      let rest = find_clear-Searched n (i + 1) bitset m in
      rw set (record {
        from = omega (arith, rest.from);
        to = omega (arith, rest.to);
        taken = λ j lo hi. elim (ℕ_discrete j i) [
          | yes here ↦ ground (arith, set, here)
          | no later ↦ rest.taken j (omega arith) hi
        ];
        found = λ h. rest.found (omega arith);
      })
]

-- Memory holds bytes.
abbrev pub AreBytes : Memory → Type 0
AreBytes m = (q : ℕ) → m q < 256

setbit-AreBytes :
    (bitset i val : ℕ) (m : Memory) → AreBytes m → AreBytes (bitset_setbit bitset i val m)
unfolding bitset_setbit
setbit-AreBytes bitset i val m bytes q = ground (arith, bytes q)

-- The inode of a new file: its type, and nothing else.
abbrev pub fresh_inode : ℕ → Inode
fresh_inode type = record {
  mode = type;
  size = 0;
  atime = 0;
  ctime = 0;
  mtime = 0;
  blocks = replicate 15 0;
}

-- What taking index `i` of a bit set does: its bit was clear and is set, every index before it was
-- taken, and every other bit is as it was.
pub record Took (bitset n i : ℕ) (m m' : Memory) : Type 0 where
  pub in_range : i < n
  pub was_clear : bitset_readbit bitset i m ≡ 0
  pub first : (j : ℕ) → j < i → bitset_readbit bitset j m ≢ 0
  pub now_set : bitset_readbit bitset i m' ≡ 1
  pub others : (j : ℕ) → j ≢ i → bitset_readbit bitset j m' ≡ bitset_readbit bitset j m

setbit-Took :
    (bitset n : ℕ) (m : Memory)
    → AreBytes m
    → find_clear n 0 bitset m ≢ n
    → Took bitset n (find_clear n 0 bitset m) m (bitset_setbit bitset (find_clear n 0 bitset m) 1 m)
setbit-Took bitset n m bytes some_clear =
    let i = find_clear n 0 bitset m in
    let search = find_clear-Searched n 0 bitset m in
    let inside : i < n = omega (arith, search.to) in
    record {
      in_range = inside;
      was_clear = search.found (omega arith);
      first = λ j lt. search.taken j (omega arith) lt;
      now_set =
          bitset_readbit-setbit bitset i i 1 m (omega arith) (bytes (bitset + i / 8))
          ∙ ground arith;
      others = λ j other.
          bitset_readbit-setbit bitset i j 1 m (omega arith) (bytes (bitset + i / 8))
          ∙ ground arith;
    }

-- `fs_create_inode` takes the inode of the first clear bit, makes it a fresh one of the type asked
-- for, and changes no other inode, no other bit of the set and no field of the superblock. If every
-- bit is set, it returns 0 and changes nothing.
pub fs_create_inode_lem :
    (type : ℕ) (fs : Fs)
    → AreBytes fs.mem
    → let d = fs.device in
      let (p, fs') = fs_create_inode type fs in
      ((p ≡ 0)
        × (fs' ≡ fs)
        × ((j : ℕ) → j < d.inodes_count → bitset_readbit d.inodes_bitset j fs.mem ≢ 0))
      ⊎ ((i : ℕ) × (p ≡ d.first_inode + i * inode_size)
          × Took d.inodes_bitset d.inodes_count i fs.mem fs'.mem
          × (fs'.inode p ≡ fresh_inode type)
          × ((q : ℕ) → q ≢ p → fs'.inode q ≡ fs.inode q)
          × (fs'.device ≡ d))
unfolding fs_create_inode
fs_create_inode_lem type fs bits =
    let d = fs.device in
    let i = find_clear d.inodes_count 0 d.inodes_bitset fs.mem in
    elim (ℕ_discrete i d.inodes_count) [
      | yes full ↦
          let search = find_clear-Searched d.inodes_count 0 d.inodes_bitset fs.mem in
          inl (ground arith, ground arith, λ j lt. search.taken j (omega arith) (omega arith))
      | no free ↦
          let test : (i == d.inodes_count) ≡ false = ground arith in
          rw test (
            inr (
              i,
              refl,
              setbit-Took d.inodes_bitset d.inodes_count fs.mem bits free,
              ground arith,
              λ q other. ground arith,
              refl,
            ))
    ]

fs_create_inode-AreBytes :
    (type : ℕ) (fs : Fs) → AreBytes fs.mem → AreBytes (fs_create_inode type fs).1.mem
unfolding fs_create_inode
fs_create_inode-AreBytes type fs bytes q =
    let d = fs.device in
    let i = find_clear d.inodes_count 0 d.inodes_bitset fs.mem in
    ground (arith, bytes q, setbit-AreBytes d.inodes_bitset i 1 fs.mem bytes q)

-- The bytes of the bit set of blocks lie in front of the data, which ends below 4 GiB.
pub record DataBehind (d : Superblock) : Type 0 where
  pub behind : d.blocks_bitset + d.blocks_count / 8 < d.first_data_block
  pub in_memory : d.first_data_block + d.blocks_count * block_size < 2 ^ 32

readbit-memset :
    (bitset j p n : ℕ) (m : Memory)
    → bitset + j / 8 < p
    → bitset_readbit bitset j (memset p 0 n m) ≡ bitset_readbit bitset j m
unfolding bitset_readbit
readbit-memset bitset j p n m before =
    let kept : memset p 0 n m (bitset + j / 8) ≡ m (bitset + j / 8) =
      (memset_lem p 0 n m).1 (bitset + j / 8) (inl before) in
    rw kept

-- `fs_create_block` takes the block of the first clear bit, whose bit is set then, fills it with
-- zeroes, and changes no other bit of the set, no inode and no field of the superblock. If every bit is set, it returns 0
-- and changes nothing. The data must lie behind the bit set.
pub fs_create_block_lem :
    (fs : Fs)
    → AreBytes fs.mem
    → DataBehind fs.device
    → let d = fs.device in
      let (p, fs') = fs_create_block fs in
      ((p ≡ 0)
        × (fs' ≡ fs)
        × ((j : ℕ) → j < d.blocks_count → bitset_readbit d.blocks_bitset j fs.mem ≢ 0))
      ⊎ ((i : ℕ) × (p ≡ d.first_data_block + i * block_size)
          × (i < d.blocks_count)
          × (bitset_readbit d.blocks_bitset i fs.mem ≡ 0)
          × ((j : ℕ) → j < i → bitset_readbit d.blocks_bitset j fs.mem ≢ 0)
          × (bitset_readbit d.blocks_bitset i fs'.mem ≡ 1)
          × ((j : ℕ)
              → j < d.blocks_count
              → j ≢ i
              → bitset_readbit d.blocks_bitset j fs'.mem ≡ bitset_readbit d.blocks_bitset j fs.mem)
          × ((k : ℕ) → k < block_size → fs'.mem (p + k) ≡ 0)
          × (fs'.inode ≡ fs.inode)
          × (fs'.device ≡ d))
unfolding fs_create_block
fs_create_block_lem fs bits behind =
    let d = fs.device in
    let i = find_clear d.blocks_count 0 d.blocks_bitset fs.mem in
    elim (ℕ_discrete i d.blocks_count) [
      | yes full ↦
          let search = find_clear-Searched d.blocks_count 0 d.blocks_bitset fs.mem in
          inl (ground arith, ground arith, λ j lt. search.taken j (omega arith) (omega arith))
      | no free ↦
          let test : (i == d.blocks_count) ≡ false = ground arith in
          let took = setbit-Took d.blocks_bitset d.blocks_count fs.mem bits free in
          let m = bitset_setbit d.blocks_bitset i 1 fs.mem in
          let block : u32 (d.first_data_block + i * block_size)
              ≡ d.first_data_block + i * block_size =
            omega (arith, took.in_range, behind.in_memory) in
          rw (test, block)
            (inr (
              i,
              refl,
              took.in_range,
              took.was_clear,
              took.first,
              readbit-memset d.blocks_bitset i _ block_size m
                    (omega (arith, took.in_range, behind.behind))
                  ∙ took.now_set,
              λ j lt other.
                  readbit-memset d.blocks_bitset j _ block_size m (omega (arith, behind.behind))
                  ∙ took.others j other,
              (memset_lem _ 0 block_size m).0,
              refl,
              refl,
            ))
    ]

-- Two inodes taken one after the other are not the same, whatever was taken before.
fs_create_inode-distinct :
    (type type' : ℕ) (fs : Fs)
    → AreBytes fs.mem
    → (fs_create_inode type fs).0 ≢ 0
    → (fs_create_inode type' (fs_create_inode type fs).1).0 ≢ 0
    → (fs_create_inode type fs).0 ≢ (fs_create_inode type' (fs_create_inode type fs).1).0
fs_create_inode-distinct type type' fs bytes got got' same =
    let fs' = (fs_create_inode type fs).1 in
    elim (fs_create_inode_lem type fs bytes) [
      | inl (null, _, _) ↦ got null
      | inr (i, at, took, _, _, kept) ↦
          elim (fs_create_inode_lem type' fs' (fs_create_inode-AreBytes type fs bytes)) [
            | inl (null, _, _) ↦ got' null
            | inr (j, at', took', _, _, _) ↦
                let start : fs'.device.first_inode ≡ fs.device.first_inode =
                  ap (λ (d : Superblock). d.first_inode) kept in
                let bits : fs'.device.inodes_bitset ≡ fs.device.inodes_bitset =
                  ap (λ (d : Superblock). d.inodes_bitset) kept in
                let index : i ≡ j = omega arith in
                ground (arith, index, bits, took.now_set, took'.was_clear)
          ]
    ]
