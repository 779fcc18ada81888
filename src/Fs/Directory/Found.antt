-- ===== src/Fs/Directory/Found.antt =====
-- A name that is added to a directory is found there.
use almorina_os.Prelude.{
  ℕ, suc, ◌+◌, ◌*◌, ◌<◌, ◌^◌, ◌≡◌, ◌≢◌, refl, arith, false, some, List, ◌∷◌, length, All, ◌==◌,
}
use almorina_os.Cstring.Bytes.{IsString, Apart}
use almorina_os.Cstring.Search.{AreBytes, strlen-length}
use almorina_os.Cstring.Same.{same}
use almorina_os.Bitset.{bitset_readbit}
use almorina_os.Fs.{Fs}
use almorina_os.Fs.Contents.{block_at, ensure_block}
use almorina_os.Fs.Directory.{
  inode, entries_in_block, find_entry, find_in_blocks, fs_get_inode_by_filename, add_entry,
  add_in_blocks, fs_dir_add_entry,
}
use almorina_os.Fs.Directory.Frames.{ApartBitset, NotFree, IsNewInode}
use almorina_os.Fs.Directory.Search.{Named}
use almorina_os.Fs.Directory.Lookup.{Room, bytes_of_entries, add_find}

-- A directory whose first block is `b`.
abbrev pub IsDirectory : ℕ → ℕ → List ℕ → Fs → Type 0
IsDirectory dir b bs fs = ((fs.inode dir).mode ≡ 1) × ((fs.inode dir).blocks ≡ b ∷ bs) × (b ≢ 0)

-- The first block decides when an entry of it is taken.
add_in_blocks-first :
    (fuel n dir b filename size type p : ℕ) (bs : List ℕ) (fs fs' : Fs)
    → IsDirectory dir b bs fs
    → add_entry fuel entries_in_block b filename size type fs ≡ some (some (inode p), fs')
    → add_in_blocks fuel (suc n) dir 0 filename size type fs ≡ some (inode p, fs')
unfolding add_in_blocks ensure_block
add_in_blocks-first fuel n dir b filename size type p bs fs fs' (mode, blocks, nonzero) adds =
    let first : block_at dir 0 fs ≡ b = rw blocks refl in
    let there : (b == 0) ≡ false = ground (arith, nonzero) in rw (first, there, first, adds) refl

fs_dir_add_entry-first :
    (s : List ℕ) (fuel dir b filename type p : ℕ) (bs : List ℕ) (fs fs' : Fs)
    → length s < fuel
    → length s < 2 ^ 31
    → IsString fs.mem filename s
    → IsDirectory dir b bs fs
    → add_entry fuel entries_in_block b filename (length s) type fs ≡ some (some (inode p), fs')
    → fs_dir_add_entry fuel dir filename type fs ≡ some (inode p, fs')
unfolding fs_dir_add_entry
fs_dir_add_entry-first s fuel dir b filename type p bs fs fs' enough small is
      (mode, blocks, nonzero) adds =
    rw (mode, strlen-length s fuel filename fs.mem enough small is)
      (add_in_blocks-first fuel 14 dir b filename (length s) type p bs fs fs'
        (mode, blocks, nonzero) adds)

fs_get_inode_by_filename-first :
    (fuel dir b filename p : ℕ) (bs : List ℕ) (fs : Fs)
    → (fs.inode dir).blocks ≡ b ∷ bs
    → b ≢ 0
    → find_entry fuel entries_in_block b filename fs.mem ≡ some (some p)
    → fs_get_inode_by_filename fuel dir filename fs ≡ some p
unfolding fs_get_inode_by_filename find_in_blocks
fs_get_inode_by_filename-first fuel dir b filename p bs fs blocks nonzero finds =
    let there : (b == 0) ≡ false = ground (arith, nonzero) in rw (blocks, there, finds) refl

-- Where the entries of the names `ns` are taken in the first block of a directory, and the one behind
-- them is free and zeroed, and some inode is free, `fs_dir_add_entry` of another name, with enough
-- fuel, returns the first inode that was free, which is not null and is fresh, of the type asked for,
-- and `fs_get_inode_by_filename` of the name then finds that inode. The names have less than 123
-- bytes, and the new one at least one byte; the name, the entries and the bit set of the inodes do
-- not overlap; the directory is no free inode itself, and the inodes do not start at null and end
-- within 64 bits.
pub get_inode-add_entry :
    (c : ℕ) (s : List ℕ) (ns : List (List ℕ)) (fuel dir b filename type k : ℕ) (bs : List ℕ)
    (fs : Fs)
    → length (c ∷ s) < fuel
    → length (c ∷ s) < 123
    → AreBytes (c ∷ s)
    → length ns < entries_in_block
    → IsString fs.mem filename (c ∷ s)
    → IsDirectory dir b bs fs
    → NotFree fs dir
    → Named fuel fs.mem b ns
    → All (λ t. (same t (c ∷ s) ≡ false) × (length t < 123)) ns
    → Room fs.mem b ns
    → Apart filename (length (c ∷ s) + 1) b (bytes_of_entries ns)
    → ApartBitset fs filename (length (c ∷ s) + 1)
    → ApartBitset fs b (bytes_of_entries ns)
    → fs.device.first_inode + (fs.device.inodes_count + 1) * 80 < 2 ^ 64
    → 0 < fs.device.first_inode
    → k < fs.device.inodes_count
    → bitset_readbit fs.device.inodes_bitset k fs.mem ≡ 0
    → (p : ℕ) × (fs' : Fs) × (fs_dir_add_entry fuel dir filename type fs ≡ some (inode p, fs'))
      × (p ≢ 0)
      × IsNewInode type fs p fs'
      × (fs_get_inode_by_filename fuel dir filename fs' ≡ some p)
get_inode-add_entry c s ns fuel dir b filename type k bs fs enough short bytes more is directory
      used named others room text_dir text_bits dir_bits inodes_fit some_inode lt clear =
    let (p, fs', adds, finds, _, _, inodes, new) =
      add_find c s fuel filename type fs enough short is text_bits inodes_fit ns entries_in_block b
        bytes more named others room text_dir dir_bits in
    let is_new = new k lt clear in
    let same_dir : (fs'.inode dir).blocks ≡ b ∷ bs = rw (inodes dir used) directory.1 in
    (
      p,
      fs',
      fs_dir_add_entry-first (c ∷ s) fuel dir b filename type p bs fs fs' enough (omega arith) is
          directory adds,
      omega (arith, is_new.1),
      is_new,
      fs_get_inode_by_filename-first fuel dir b filename p bs fs' same_dir directory.2 finds,
    )
