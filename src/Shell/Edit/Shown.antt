-- ===== src/Shell/Edit/Shown.antt =====
-- What is typed into a file with `edit` is what `cat` shows.
use almorina_os.Prelude.{
  ℕ, suc, ◌+◌, ◌*◌, ◌≤◌, ◌<◌, ◌^◌, ◌≡◌, ◌≢◌, inr, refl, ap, sym, ◌∙◌, arith, some, List, [], ◌∷◌,
  ◌++◌, length, length-append, All,
}
use almorina_os.Prelude.Words.{u8, u32}
use almorina_os.Cstring.{Memory, memset}
use almorina_os.Cstring.Bytes.{BytesAt, IsString, SameOutside, Apart}
use almorina_os.Cstring.Fill.{memset_lem}
use almorina_os.Heap.{Heap, malloc}
use almorina_os.Fs.{Fs, Inode}
use almorina_os.Fs.Contents.{fs_inode_write_data, fs_inode_get_data}
use almorina_os.Fs.Contents.RoundTrip.{OneBlock, get_data-write_data}
use almorina_os.Stdio.{newline_char}
use almorina_os.Keyboard.Line.{fgets}
use almorina_os.Keyboard.Straight.{IsTyped, fgets-straight}
use almorina_os.Shell.Files.{Session, with_fs, with_heap}
use almorina_os.Shell.Edit.{inode_of_entry, edit_found, cat_found}

abbrev with_mem : Memory → Fs → Fs
with_mem m fs = record fs { mem = m }

string_of_bytes :
    (s : List ℕ) (m : Memory) (p : ℕ)
    → All (λ c. c ≢ 0) s
    → BytesAt m p s
    → m (p + length s) ≡ 0
    → IsString m p s
string_of_bytes [] m p bytes at end = let here : p + 0 ≡ p = omega arith in rw here at end
string_of_bytes (c ∷ s) m p bytes at end =
    let next : p + suc (length s) ≡ p + 1 + length s = omega arith in
    (at.0, bytes.0, string_of_bytes s m (p + 1) bytes.1 at.1 (rw next at end))

typed_bytes : (s : List ℕ) → All IsTyped s → All (λ c. c ≢ 0) (s ++ newline_char ∷ [])
typed_bytes [] typed = (omega arith, tt)
typed_bytes (c ∷ s) typed = (typed.0.0, typed_bytes s typed.1)

-- The array behind the typing: the line with its newline.
contents_string :
    (s : List ℕ) (contents : ℕ) (m m' : Memory)
    → length s + 1 < 100
    → All IsTyped s
    → BytesAt m' contents (s ++ newline_char ∷ [])
    → SameOutside contents (length s + 1) (memset contents 0 100 m) m'
    → IsString m' contents (s ++ newline_char ∷ [])
contents_string s contents m m' short typed bytes same =
    let long = length-append s (newline_char ∷ []) in
    let cleared = (memset_lem contents 0 100 m).0 (length s + 1) short in
    let behind : contents + length (s ++ newline_char ∷ []) ≡ contents + (length s + 1) =
      omega (arith, long) in
    string_of_bytes (s ++ newline_char ∷ []) m' contents (typed_bytes s typed) bytes
      (rw behind (same (contents + (length s + 1)) (inr (omega arith)) ∙ cleared))

inode_of_entry-mem :
    (padding : ℕ → ℕ) (file : ℕ) (fs : Fs) (m : Memory)
    → inode_of_entry padding file (record fs { mem = m }) ≡ inode_of_entry padding file fs
unfolding inode_of_entry
inode_of_entry-mem padding file fs m = refl

inode_of_entry-kept :
    (padding : ℕ → ℕ) (file : ℕ) (fs fs' : Fs)
    → fs'.inode file ≡ fs.inode file
    → inode_of_entry padding file fs' ≡ inode_of_entry padding file fs
unfolding inode_of_entry
inode_of_entry-kept padding file fs fs' kept =
    ap (λ (node : Inode). u8 node.mode + 2 ^ 8 * padding file + 2 ^ 32 * u32 node.size) kept

inode_of_entry_lem :
    (padding : ℕ → ℕ) (file e : ℕ) (fs : Fs)
    → u8 (fs.inode file).mode + 2 ^ 8 * padding file + 2 ^ 32 * u32 (fs.inode file).size ≡ e
    → inode_of_entry padding file fs ≡ e
unfolding inode_of_entry
inode_of_entry_lem padding file e fs is = is

edit_found-runs :
    (padding : ℕ → ℕ) (fuel contents file e : ℕ) (keys left : List ℕ) (t : Session) (m1 : Memory)
    (fs1 : Fs)
    → inode_of_entry padding file t.fs ≡ e
    → fgets keys contents 100 (memset contents 0 100 t.fs.mem) ≡ some (m1, left)
    → fs_inode_write_data fuel e contents (with_mem m1 t.fs) ≡ some fs1
    → edit_found padding fuel contents file keys t ≡ some (with_fs fs1 t, left)
unfolding edit_found
edit_found-runs padding fuel contents file e keys left t m1 fs1 is types writes =
    let there = inode_of_entry-mem padding file t.fs m1 ∙ is in rw (types, there, writes) refl

cat_found-runs :
    (padding : ℕ → ℕ) (fuel file e p : ℕ) (t : Session) (fs1 : Fs) (h : Heap)
    → inode_of_entry padding file t.fs ≡ e
    → fs_inode_get_data fuel e t.fs t.heap ≡ some (p, fs1, h)
    → cat_found padding fuel file t ≡ some (p, with_heap h (with_fs fs1 t))
unfolding cat_found
cat_found-runs padding fuel file e p t fs1 h is reads = rw (is, reads) refl

-- A line of at most 98 characters, typed into a file with `edit` without corrections, is what `cat`
-- then shows, with its newline: with enough fuel both end. The contents are written to the inode whose
-- address both read from the first eight bytes of the file's own inode, which are its mode, three bytes
-- of padding, and its size: the block of that inode then holds them, its size is their length, and the
-- file's own inode stays as it is. The inode at that address must not be the file's own and must have
-- one block; the array, the block and the buffer that the heap gives must not overlap.
pub cat_found-edit_found :
    (padding : ℕ → ℕ) (first c : ℕ) (s left : List ℕ) (fuel contents file e b buffer : ℕ)
    (t : Session) (h' : Heap)
    → u8 (t.fs.inode file).mode + 2 ^ 8 * padding file + 2 ^ 32 * u32 (t.fs.inode file).size ≡ e
    → e ≢ file
    → length s < 98
    → 100 ≤ fuel
    → contents + 100 < 2 ^ 64
    → All IsTyped (c ∷ s)
    → b ≢ 0
    → OneBlock e b t.fs
    → Apart contents 100 b 4096
    → Apart buffer (length s + 2) b (length s + 3)
    → malloc fuel (length s + 3) t.heap ≡ some (buffer, h')
    → (t' : Session) × (t'' : Session) × (edit_found padding fuel contents file
          (first ∷ c ∷ s ++ newline_char ∷ left)
          t
        ≡ some (t', left))
      × (t'.fs.inode file ≡ t.fs.inode file)
      × IsString t'.fs.mem b (c ∷ s ++ newline_char ∷ [])
      × ((t'.fs.inode e).size ≡ length s + 2)
      × (cat_found padding fuel file t' ≡ some (buffer, t''))
      × IsString t''.fs.mem buffer (c ∷ s ++ newline_char ∷ [])
cat_found-edit_found padding first c s left fuel contents file e b buffer t h' names other short
      enough fits typed nonzero one apart away given =
    let is = inode_of_entry_lem padding file e t.fs names in
    let text = s ++ newline_char ∷ [] in
    let long : length text ≡ length s + 1 = omega (arith, length-append s (newline_char ∷ [])) in
    let size : length (c ∷ text) + 1 ≡ length s + 3 = omega (arith, long) in
    let m0 = memset contents 0 100 t.fs.mem in
    let (m1, types, bytes, same) =
      fgets-straight first (c ∷ s) left contents 100 m0 (omega arith) fits (omega arith) typed in
    let stands = contents_string (c ∷ s) contents t.fs.mem m1 (omega arith) typed bytes same in
    let (fs1, fs2, writes, size_is, held, reads, shown, kept) =
      get_data-write_data c text fuel e b contents buffer (with_mem m1 t.fs) t.heap h'
        (omega (arith, long)) (omega (arith, long)) nonzero one stands (ground (arith, apart, long))
        (ground (arith, away, long)) (ap (λ n. malloc fuel n t.heap) size ∙ given) in
    let same_file = kept file (λ h. other (sym h)) in
    (
      with_fs fs1 t,
      with_heap h' (with_fs fs2 t),
      edit_found-runs padding fuel contents file e (first ∷ c ∷ s ++ newline_char ∷ left) left t m1
          fs1 is types writes,
      same_file,
      held,
      omega (arith, size_is, long),
      cat_found-runs padding fuel file e buffer (with_fs fs1 t) fs2 h'
          (inode_of_entry-kept padding file t.fs fs1 same_file ∙ is) reads,
      shown,
    )
