-- ===== src/Fs/Directory/Frames.antt =====
-- What `fs_create_inode` leaves as it is.
use native.Mathlib.Decide.{ℕ_discrete}
use almorina_os.Prelude.{
  ℕ, ◌+◌, ◌*◌, ◌/◌, ◌%◌, ◌≤◌, ◌<◌, ◌≡◌, ◌≢◌, ◌⊎◌, sym, ap, ◌∙◌, refl, arith, false, ◌==◌,
}
use almorina_os.Prelude.Store.{update}
use almorina_os.Cstring.Bytes.{Apart}
use almorina_os.Bitset.{num_bit, bitset_readbit, bitset_setbit}
use almorina_os.Fs.{Fs, find_clear, fs_create_inode}
use almorina_os.Fs.Create.{fresh_inode, find_clear-Searched}

-- The bytes of the bit set of the inodes.
abbrev pub OutsideBitset : Fs → ℕ → Type 0
OutsideBitset fs q =
    (q < fs.device.inodes_bitset) ⊎ (fs.device.inodes_bitset + fs.device.inodes_count / 8 + 1 ≤ q)

-- `n` bytes at `p` do not overlap the bit set.
abbrev pub ApartBitset : Fs → ℕ → ℕ → Type 0
ApartBitset fs p n = Apart p n fs.device.inodes_bitset (fs.device.inodes_count / 8 + 1)

-- `fs_create_inode` writes no byte outside the bit set of the inodes.
pub fs_create_inode-frame :
    (type : ℕ) (fs : Fs) (q : ℕ) → OutsideBitset fs q → (fs_create_inode type fs).1.mem q ≡ fs.mem q
unfolding fs_create_inode bitset_setbit
fs_create_inode-frame type fs q out =
    let d = fs.device in
    let search = find_clear-Searched d.inodes_count 0 d.inodes_bitset fs.mem in
    ground (arith, out, search.to)

pub fs_create_inode-le :
    (type : ℕ) (fs : Fs)
    → (fs_create_inode type fs).0 ≤ fs.device.first_inode + fs.device.inodes_count * 80
unfolding fs_create_inode
fs_create_inode-le type fs =
    let d = fs.device in
    let search = find_clear-Searched d.inodes_count 0 d.inodes_bitset fs.mem in
    ground (arith, search.to)

-- No free inode stands at `q`.
abbrev pub NotFree : Fs → ℕ → Type 0
NotFree fs q =
    (i : ℕ)
    → i < fs.device.inodes_count
    → bitset_readbit fs.device.inodes_bitset i fs.mem ≡ 0
    → q ≢ fs.device.first_inode + i * 80

pub fs_create_inode-other :
    (type : ℕ) (fs : Fs) (q : ℕ) → NotFree fs q → (fs_create_inode type fs).1.inode q ≡ fs.inode q
unfolding fs_create_inode
fs_create_inode-other type fs q taken =
    let d = fs.device in
    let i = find_clear d.inodes_count 0 d.inodes_bitset fs.mem in
    let search = find_clear-Searched d.inodes_count 0 d.inodes_bitset fs.mem in
    ground (arith, search.to, search.found, taken i)

readbit-update :
    (fs : Fs) (a v i : ℕ)
    → OutsideBitset fs a
    → i < fs.device.inodes_count
    → bitset_readbit fs.device.inodes_bitset i (update fs.mem a v)
      ≡ bitset_readbit fs.device.inodes_bitset i fs.mem
unfolding bitset_readbit
readbit-update fs a v i out lt =
    let here : update fs.mem a v (fs.device.inodes_bitset + i / 8)
        ≡ fs.mem (fs.device.inodes_bitset + i / 8) =
      ground (arith, out) in
    ap (λ x. num_bit x (i % 8)) here

-- `p` is the first inode of `fs` that was free, and it is a fresh one of the type in `fs'`.
abbrev pub IsNewInode : ℕ → Fs → ℕ → Fs → Type 0
IsNewInode type fs p fs' =
    (i : ℕ) × (p ≡ fs.device.first_inode + i * 80)
    × (i < fs.device.inodes_count)
    × (bitset_readbit fs.device.inodes_bitset i fs.mem ≡ 0)
    × ((j : ℕ) → j < i → bitset_readbit fs.device.inodes_bitset j fs.mem ≢ 0)
    × (fs'.inode p ≡ fresh_inode type)

-- A byte outside the bit set is written, and an inode is taken while one is free.
pub fs_create_inode-new :
    (type a v k : ℕ) (fs : Fs)
    → OutsideBitset fs a
    → k < fs.device.inodes_count
    → bitset_readbit fs.device.inodes_bitset k fs.mem ≡ 0
    → let (p, fs') = fs_create_inode type (record fs { mem = update fs.mem a v }) in
      IsNewInode type fs p fs'
unfolding fs_create_inode
fs_create_inode-new type a v k fs out lt clear =
    let d = fs.device in
    let m = update fs.mem a v in
    let i = find_clear d.inodes_count 0 d.inodes_bitset m in
    let search = find_clear-Searched d.inodes_count 0 d.inodes_bitset m in
    let inside : i < d.inodes_count = elim (ℕ_discrete i d.inodes_count) [
      | yes full ↦
          absurd
            (search.taken k (omega arith) (omega arith) (readbit-update fs a v k out lt ∙ clear))
      | no free ↦ omega (arith, search.to)
    ] in
    let test : (i == d.inodes_count) ≡ false = ground (arith, inside) in
    rw test (
      i,
      refl,
      inside,
      sym (readbit-update fs a v i out inside) ∙ search.found (omega arith),
      λ j before same.
          search.taken j (omega arith) before (readbit-update fs a v j out (omega arith) ∙ same),
      ground arith,
    )

-- A byte outside the bit set is written.
pub NotFree-update :
    (fs : Fs) (a v q : ℕ)
    → OutsideBitset fs a
    → NotFree fs q
    → NotFree (record fs { mem = update fs.mem a v }) q
unfolding bitset_readbit
NotFree-update fs a v q out taken i lt clear =
    let here : update fs.mem a v (fs.device.inodes_bitset + i / 8)
        ≡ fs.mem (fs.device.inodes_bitset + i / 8) =
      ground (arith, out) in
    taken i lt (ap (λ x. num_bit x (i % 8)) (sym here) ∙ clear)
