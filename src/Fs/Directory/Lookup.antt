-- ===== src/Fs/Directory/Lookup.antt =====
-- What is added to a directory is found there.
use almorina_os.Prelude.{
  ℕ, zero, suc, ◌+◌, ◌*◌, ◌≤◌, ◌<◌, ◌^◌, ◌≡◌, ◌≢◌, ◌⊎◌, inl, inr, refl, ◌∙◌, arith, false, some,
  List, [], ◌∷◌, length, All, ltb, ◌==◌, if◌then◌else◌,
}
use almorina_os.Prelude.Store.{update}
use almorina_os.Cstring.{Memory}
use almorina_os.Cstring.Bytes.{IsString, Apart}
use almorina_os.Cstring.Text.{strncpy-IsString, IsString-agree}
use almorina_os.Cstring.Search.{AreBytes}
use almorina_os.Cstring.Same.{same, same_refl, strcmp-same}
use almorina_os.Fs.{Fs, fs_create_inode}
use almorina_os.Fs.Directory.Frames.{
  OutsideBitset, ApartBitset, NotFree, fs_create_inode-frame, fs_create_inode-le,
  fs_create_inode-other, NotFree-update, IsNewInode, fs_create_inode-new,
}
use almorina_os.Bitset.{bitset_readbit}
use almorina_os.Fs.Word.{store, load-store, load-same, store-other}
use almorina_os.Fs.Directory.{
  inode, entry_size, entry_name, entry_taken, entry_inode, find_entry, take_entry, add_entry,
  fs_max_filename_size,
}
use almorina_os.Fs.Directory.Search.{Named}

-- The entries with these names are taken, and the one behind them is free and zeroed.
abbrev pub Room : Memory → ℕ → List (List ℕ) → Type 0
Room m ent [] = (m (entry_taken ent) ≡ 0) × ((j : ℕ) → j < 123 → m (entry_name ent + j) ≡ 0)
Room m ent (n ∷ ns) = (m (entry_taken ent) ≢ 0) × Room m (ent + entry_size) ns

-- The bytes of the entries with these names and of the one behind them.
abbrev pub bytes_of_entries : List (List ℕ) → ℕ
bytes_of_entries ns = entry_size * (length ns + 1)

module _ (c : ℕ) (s : List ℕ) (fuel filename type : ℕ) (fs : Fs) (enough : length (c ∷ s) < fuel)
    (short : length (c ∷ s) < 123) (is : IsString fs.mem filename (c ∷ s))
    (text_bits : ApartBitset fs filename (length (c ∷ s) + 1))
    (inodes_fit : fs.device.first_inode + (fs.device.inodes_count + 1) * 80 < 2 ^ 64) where
  -- What taking the entry at `ent` leaves.
  record Taken (ent p : ℕ) (fs' : Fs) : Type 0 where
    named : IsString fs'.mem (entry_name ent) (c ∷ s)
    points : entry_inode ent fs'.mem ≡ p
    text : IsString fs'.mem filename (c ∷ s)
    frame : (q : ℕ) → OutsideBitset fs q → (q < ent) ⊎ (ent + entry_size ≤ q) → fs'.mem q ≡ fs.mem q
    inodes : (q : ℕ) → NotFree fs q → fs'.inode q ≡ fs.inode q
    new :
        (k : ℕ)
        → k < fs.device.inodes_count
        → bitset_readbit fs.device.inodes_bitset k fs.mem ≡ 0
        → IsNewInode type fs p fs'

  take_entry_lem :
      (ent : ℕ)
      → Room fs.mem ent []
      → Apart filename (length (c ∷ s) + 1) ent entry_size
      → ApartBitset fs ent entry_size
      → (p : ℕ) × (fs' : Fs) × (take_entry fuel ent filename (length (c ∷ s)) type fs
          ≡ some (inode p, fs'))
        × Taken ent p fs'
  unfolding take_entry
  take_entry_lem ent room text_ent ent_bits =
      let n = length (c ∷ s) in
      let fs1 : Fs = record fs { mem = update fs.mem (entry_taken ent) 1 } in
      let p = (fs_create_inode type fs1).0 in
      let fs2 = (fs_create_inode type fs1).1 in
      let m3 = store 8 ent p fs2.mem in
      let kept : (q : ℕ) → OutsideBitset fs q → fs2.mem q ≡ fs1.mem q =
        λ q out. fs_create_inode-frame type fs1 q out in
      let stored : (q : ℕ) → (q < ent) ⊎ (ent + 8 ≤ q) → m3 q ≡ fs2.mem q =
        λ q out. store-other 8 ent p q fs2.mem out in
      let bound : p < 2 ^ 64 = omega (arith, fs_create_inode-le type fs1) in
      let text3 : IsString m3 filename (c ∷ s) =
        IsString-agree (c ∷ s) fs.mem m3 filename
          (λ q lo hi.
            stored q (ground (arith, text_ent))
            ∙ kept q (ground (arith, text_bits))
            ∙ ground (arith, text_ent))
          is in
      let end : m3 (entry_name ent + n) ≡ 0 =
        stored (entry_name ent + n) (inr (omega arith))
        ∙ kept (entry_name ent + n) (ground (arith, ent_bits))
        ∙ ground (arith, room.1 n) in
      let (m4, runs, named, same) =
        strncpy-IsString c s fuel (entry_name ent) filename m3 enough (omega arith)
          (ground (arith, text_ent)) text3 end in
      let size : (if ltb n fs_max_filename_size then n else fs_max_filename_size) ≡ n =
        ground (arith, short) in
      (
        p,
        record fs2 { mem = m4 },
        rw (size, runs) refl,
        record {
          named = named;
          points =
              load-same 8 ent m3 m4 (λ q lo hi. same q (inl (omega arith)))
              ∙ load-store 8 ent p fs2.mem (omega arith);
          text =
              IsString-agree (c ∷ s) m3 m4 filename (λ q lo hi. same q (ground (arith, text_ent)))
                text3;
          frame = λ q out away.
              same q (ground (arith, away))
              ∙ stored q (ground (arith, away))
              ∙ kept q out
              ∙ ground (arith, away);
          inodes = λ q taken.
              fs_create_inode-other type fs1 q
                (NotFree-update fs (entry_taken ent) 1 q (ground (arith, ent_bits)) taken);
          new = λ k lt clear.
              fs_create_inode-new type (entry_taken ent) 1 k fs (ground (arith, ent_bits)) lt clear;
        },
      )

  -- Other names that an entry holds.
  abbrev pub OtherName : List ℕ → Type 0
  OtherName t = (same t (c ∷ s) ≡ false) × (length t < 123)

  abbrev AddsAndFinds : ℕ → ℕ → Type 0
  AddsAndFinds n ent =
      (p : ℕ) × (fs' : Fs) × (add_entry fuel n ent filename (length (c ∷ s)) type fs
        ≡ some (some (inode p), fs'))
      × (find_entry fuel n ent filename fs'.mem ≡ some (some p))
      × IsString fs'.mem filename (c ∷ s)
      × ((q : ℕ) → OutsideBitset fs q → q < ent → fs'.mem q ≡ fs.mem q)
      × ((q : ℕ) → NotFree fs q → fs'.inode q ≡ fs.inode q)
      × ((k : ℕ)
          → k < fs.device.inodes_count
          → bitset_readbit fs.device.inodes_bitset k fs.mem ≡ 0
          → IsNewInode type fs p fs')

  add_here :
      (n ent : ℕ)
      → AreBytes (c ∷ s)
      → Room fs.mem ent []
      → Apart filename (length (c ∷ s) + 1) ent entry_size
      → ApartBitset fs ent entry_size
      → AddsAndFinds (suc n) ent
  unfolding add_entry find_entry
  add_here n ent bytes room text_ent ent_bits =
      let (p, fs', runs, taken) = take_entry_lem ent room text_ent ent_bits in
      let start : entry_name ent ≡ entry_name ent + 0 = omega arith in
      let empty : IsString fs.mem (entry_name ent) [] = rw start (room.1 0 (omega arith)) in
      let (r, compared, test) =
        strcmp-same [] (c ∷ s) fuel (entry_name ent) filename fs.mem (omega arith) tt bytes empty
          is in
      let (r', compared', test') =
        strcmp-same (c ∷ s) (c ∷ s) fuel (entry_name ent) filename fs'.mem enough bytes bytes
          taken.named taken.text in
      (
        p,
        fs',
        rw (compared, test, room.0, runs) refl,
        rw (compared', test', same_refl (c ∷ s), taken.points) refl,
        taken.text,
        (λ q out lt. taken.frame q out (inl lt)),
        taken.inodes,
        taken.new,
      )

  pub add_find :
      (ns : List (List ℕ)) (n ent : ℕ)
      → AreBytes (c ∷ s)
      → length ns < n
      → Named fuel fs.mem ent ns
      → All OtherName ns
      → Room fs.mem ent ns
      → Apart filename (length (c ∷ s) + 1) ent (bytes_of_entries ns)
      → ApartBitset fs ent (bytes_of_entries ns)
      → AddsAndFinds n ent
  unfolding add_entry find_entry
  add_find ns zero ent bytes more named others room text_dir dir_bits = absurd (omega arith)
  add_find [] (suc n) ent bytes more named others room text_dir dir_bits =
      add_here n ent bytes room (ground (arith, text_dir)) (ground (arith, dir_bits))
  add_find (t ∷ ns) (suc n) ent bytes more (here, small, shorter, named) ((other, fits), others)
        (used, room) text_dir dir_bits =
      let (p, fs', adds, finds, text, frame, inodes, new) =
        add_find ns n (ent + entry_size) bytes (omega arith) named others room
          (ground (arith, text_dir)) (ground (arith, dir_bits)) in
      let kept : IsString fs'.mem (entry_name ent) t =
        IsString-agree t fs.mem fs'.mem (entry_name ent)
          (λ q lo hi. frame q (ground (arith, dir_bits)) (omega arith)) here in
      let (r, compared, test) =
        strcmp-same t (c ∷ s) fuel (entry_name ent) filename fs.mem shorter small bytes here is in
      let (r', compared', test') =
        strcmp-same t (c ∷ s) fuel (entry_name ent) filename fs'.mem shorter small bytes kept
          text in
      let flag : (fs.mem (entry_taken ent) == 0) ≡ false = ground (arith, used) in
      (
        p,
        fs',
        rw (compared, test, other, flag) adds,
        rw (compared', test', other) finds,
        text,
        (λ q out lt. frame q out (omega arith)),
        inodes,
        new,
      )
