-- ===== src/Fs/Contents/RoundTrip.antt =====
-- A text shorter than a block is read back as it was written.
use almorina_os.Prelude.{
  ℕ, zero, suc, ◌+◌, ◌≤◌, ◌<◌, ◌≡◌, ◌≢◌, inl, inr, refl, ap, ◌∙◌, arith, true, false, Option, some,
  List, ◌∷◌, length, replicate, get_or, ltb, ◌==◌, if◌then◌else◌,
}
use almorina_os.Prelude.Words.{u16, u32}
use almorina_os.Prelude.Store.{update}
use almorina_os.Prelude.Fault.{◌>>=◌}
use almorina_os.Cstring.{Memory, memset, strncpy}
use almorina_os.Cstring.Bytes.{BytesAt, BytesAt-same, IsString, Apart, IsString-same}
use almorina_os.Cstring.Fill.{memset_lem}
use almorina_os.Cstring.Text.{BytesAt-IsString, strncpy-whole}
use almorina_os.Cstring.Search.{strlen-length}
use almorina_os.Heap.{Heap, malloc}
use almorina_os.Fs.{Fs, block_size}
use almorina_os.Fs.Contents.{
  block_at, ensure_block, write_block, write_blocks, fs_inode_write_data, sum_blocks, copy_blocks,
  fs_inode_get_data,
}

-- The file has one block.
abbrev pub OneBlock : ℕ → ℕ → Fs → Type 0
OneBlock inode b fs = (fs.inode inode).blocks ≡ b ∷ replicate 14 0

ensure_block-same :
    (inode b : ℕ) (fs : Fs) → OneBlock inode b fs → b ≢ 0 → ensure_block inode 0 fs ≡ fs
unfolding ensure_block
ensure_block-same inode b fs one nonzero =
    let first : block_at inode 0 fs ≡ b = rw one refl in
    let there : (block_at inode 0 fs == 0) ≡ false = ground (arith, first, nonzero) in rw there refl

get_or-replicate : (n i : ℕ) → get_or {A = ℕ} (replicate n 0) i 0 ≡ 0
get_or-replicate zero i = refl
get_or-replicate (suc n) zero = refl
get_or-replicate (suc n) (suc i) = get_or-replicate n i

first_block : (inode b : ℕ) (fs : Fs) → OneBlock inode b fs → block_at inode 0 fs ≡ b
first_block inode b fs one = rw one refl

no_other_block :
    (inode b : ℕ) (fs : Fs) → OneBlock inode b fs → (j : ℕ) → 1 ≤ j → block_at inode j fs ≡ 0
no_other_block inode b fs one zero behind = absurd (omega arith)
no_other_block inode b fs one (suc j) behind = rw one (get_or-replicate 14 j)

sum_blocks-none :
    (fuel k inode i n : ℕ) (fs : Fs)
    → ((j : ℕ) → i ≤ j → block_at inode j fs ≡ 0)
    → sum_blocks fuel k inode i n fs ≡ some n
unfolding sum_blocks
sum_blocks-none fuel zero inode i n fs empty = refl
sum_blocks-none fuel (suc k) inode i n fs empty =
    rw (empty i (omega arith))
      (sum_blocks-none fuel k inode (i + 1) n fs (λ j le. empty j (omega arith)))

copy_blocks-none :
    (fuel k inode i buffer : ℕ) (fs : Fs)
    → ((j : ℕ) → i ≤ j → block_at inode j fs ≡ 0)
    → copy_blocks fuel k inode i buffer fs ≡ some fs
unfolding copy_blocks
copy_blocks-none fuel zero inode i buffer fs empty = refl
copy_blocks-none fuel (suc k) inode i buffer fs empty =
    rw (empty i (omega arith))
      (copy_blocks-none fuel k inode (i + 1) buffer fs (λ j le. empty j (omega arith)))

module _ (c : ℕ) (s : List ℕ) (fuel inode b : ℕ) (nonzero : b ≢ 0) (enough : length (c ∷ s) < fuel)
    (short : length (c ∷ s) < 4096) where
  -- The copy to the first block of a file system whose first block is there.
  abbrev fill_block : ℕ → Fs → Option Fs
  fill_block text fs =
      let size = length (c ∷ s) in
      let p = block_at inode 0 fs in
      strncpy fuel p text (u16 (if ltb size block_size then size else block_size))
        (memset p 0 block_size fs.mem)
      >>= λ m. some (record fs { mem = m })

  write_block-fill :
      (text : ℕ) (fs : Fs)
      → write_block fuel inode 0 text (length (c ∷ s)) fs
        ≡ fill_block text (ensure_block inode 0 fs)
  unfolding write_block
  write_block-fill text fs = refl

  write_block_lem :
      (text : ℕ) (fs : Fs)
      → OneBlock inode b fs
      → IsString fs.mem text (c ∷ s)
      → Apart text (length (c ∷ s) + 1) b 4096
      → (m : Memory) × (write_block fuel inode 0 text (length (c ∷ s)) fs
          ≡ some (record fs { mem = m }))
        × IsString m b (c ∷ s)
  write_block_lem text fs one is apart =
      let n = length (c ∷ s) in
      let zeroed = memset b 0 4096 fs.mem in
      let (zeroes, kept) = memset_lem b 0 4096 fs.mem in
      let is' = IsString-same (c ∷ s) fs.mem zeroed text b 4096 kept apart is in
      let (m, runs, bytes, same) =
        strncpy-whole c s fuel b text zeroed enough (omega arith) (ground (arith, apart)) is' in
      let size : u16 (if ltb n block_size then n else block_size) ≡ n = ground (arith, short) in
      let first : block_at inode 0 fs ≡ b = rw one refl in
      (
        m,
        write_block-fill text fs
            ∙ ap (fill_block text) (ensure_block-same inode b fs one nonzero)
            ∙ rw (first, size, runs) refl,
        BytesAt-IsString (c ∷ s) zeroed m text b is' bytes
            (same (b + n) (inr (omega arith)) ∙ zeroes n (omega arith)),
      )

  -- `fs_inode_write_data` of a text shorter than a block.
  write_data_lem :
      (text : ℕ) (fs : Fs)
      → OneBlock inode b fs
      → IsString fs.mem text (c ∷ s)
      → Apart text (length (c ∷ s) + 1) b 4096
      → (fs' : Fs) × (fs_inode_write_data fuel inode text fs ≡ some fs')
        × OneBlock inode b fs'
        × ((fs'.inode inode).size ≡ length (c ∷ s))
        × IsString fs'.mem b (c ∷ s)
        × ((q : ℕ) → q ≢ inode → fs'.inode q ≡ fs.inode q)
  unfolding fs_inode_write_data write_blocks
  write_data_lem text fs one is apart =
      let n = length (c ∷ s) in
      let (m, runs, text_there) = write_block_lem text fs one is apart in
      let node = fs.inode inode in
      let less : ltb n block_size ≡ true = ground (arith, short) in
      let counted = strlen-length (c ∷ s) fuel text fs.mem enough (omega arith) is in
      (
        record fs { mem = m; inode = update fs.inode inode (record node { size = n }) },
        rw (counted, runs, less) refl,
        ground (arith, one),
        ground arith,
        text_there,
        λ q other. ground arith,
      )

  sum_blocks_lem :
      (k : ℕ) (fs : Fs)
      → OneBlock inode b fs
      → IsString fs.mem b (c ∷ s)
      → sum_blocks fuel (suc k) inode 0 0 fs ≡ some (length (c ∷ s))
  unfolding sum_blocks
  sum_blocks_lem k fs one is =
      let counted = strlen-length (c ∷ s) fuel b fs.mem enough (omega arith) is in
      let there : (b == 0) ≡ false = ground (arith, nonzero) in
      let small : u32 (0 + length (c ∷ s)) ≡ length (c ∷ s) = omega arith in
      rw (first_block inode b fs one, there, counted, small)
        (sum_blocks-none fuel k inode 1 (length (c ∷ s)) fs (no_other_block inode b fs one))

  copy_blocks_lem :
      (k buffer : ℕ) (fs : Fs)
      → OneBlock inode b fs
      → IsString fs.mem b (c ∷ s)
      → Apart buffer (length (c ∷ s)) b (length (c ∷ s) + 1)
      → (m : Memory) × (copy_blocks fuel (suc k) inode 0 buffer fs ≡ some (record fs { mem = m }))
        × BytesAt m buffer (c ∷ s)
  unfolding copy_blocks
  copy_blocks_lem k buffer fs one is apart =
      let counted = strlen-length (c ∷ s) fuel b fs.mem enough (omega arith) is in
      let there : (b == 0) ≡ false = ground (arith, nonzero) in
      let (m, runs, bytes, same) =
        strncpy-whole c s fuel buffer b fs.mem enough (omega arith) apart is in
      let fs' : Fs = record fs { mem = m } in
      (
        m,
        rw (first_block inode b fs one, there, counted, runs)
            (copy_blocks-none fuel k inode 1 buffer fs' (no_other_block inode b fs' one)),
        bytes,
      )

  get_data_lem :
      (buffer : ℕ) (fs : Fs) (h h' : Heap)
      → OneBlock inode b fs
      → IsString fs.mem b (c ∷ s)
      → Apart buffer (length (c ∷ s)) b (length (c ∷ s) + 1)
      → malloc fuel (length (c ∷ s) + 1) h ≡ some (buffer, h')
      → (fs' : Fs) × (fs_inode_get_data fuel inode fs h ≡ some (buffer, fs', h'))
        × IsString fs'.mem buffer (c ∷ s)
  unfolding fs_inode_get_data
  get_data_lem buffer fs h h' one is apart given =
      let n = length (c ∷ s) in
      let (m, runs, bytes) = copy_blocks_lem 14 buffer fs one is apart in
      let m' = update m (buffer + n) 0 in
      (
        record fs { mem = m' },
        rw (sum_blocks_lem 14 fs one is, given, runs) refl,
        BytesAt-IsString (c ∷ s) fs.mem m' b buffer is
            (BytesAt-same (c ∷ s) m m' buffer (buffer + n) 1 (λ q out. ground arith)
              (inl (omega arith)) bytes)
            (ground arith),
      )

-- A text of at least one byte and less than a block, written to a file that has one block, is read
-- back: with enough fuel both calls end, the block then holds the text, the size of the file is the
-- length of the text, and the buffer that the heap gives for the read holds the text; no other inode
-- is changed. The text, the block and the buffer must not overlap.
pub get_data-write_data :
    (c : ℕ) (s : List ℕ) (fuel inode b text buffer : ℕ) (fs : Fs) (h h' : Heap)
    → length (c ∷ s) < fuel
    → length (c ∷ s) < 4096
    → b ≢ 0
    → OneBlock inode b fs
    → IsString fs.mem text (c ∷ s)
    → Apart text (length (c ∷ s) + 1) b 4096
    → Apart buffer (length (c ∷ s)) b (length (c ∷ s) + 1)
    → malloc fuel (length (c ∷ s) + 1) h ≡ some (buffer, h')
    → (fs' : Fs) × (fs'' : Fs) × (fs_inode_write_data fuel inode text fs ≡ some fs')
      × ((fs'.inode inode).size ≡ length (c ∷ s))
      × IsString fs'.mem b (c ∷ s)
      × (fs_inode_get_data fuel inode fs' h ≡ some (buffer, fs'', h'))
      × IsString fs''.mem buffer (c ∷ s)
      × ((q : ℕ) → q ≢ inode → fs'.inode q ≡ fs.inode q)
get_data-write_data c s fuel inode b text buffer fs h h' enough short nonzero one is apart away
      given =
    let (fs', writes, one', size, held, kept) =
      write_data_lem c s fuel inode b nonzero enough short text fs one is apart in
    let (fs'', reads, read) =
      get_data_lem c s fuel inode b nonzero enough short buffer fs' h h' one' held away given in
    (fs', fs'', writes, size, held, reads, read, kept)
