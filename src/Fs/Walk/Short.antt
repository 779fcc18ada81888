-- ===== src/Fs/Walk/Short.antt =====
-- Directory names that `fs_get_inode_dir` does not look up.
use almorina_os.Prelude.{
  ℕ, zero, suc, ◌+◌, ◌-◌, ◌≤◌, ◌<◌, ◌≡◌, ◌≢◌, ◌⊎◌, inl, inr, refl, ◌∙◌, arith, false, some, List,
  [], ◌∷◌, length, ltb, ◌==◌,
}
use almorina_os.Cstring.{memset}
use almorina_os.Cstring.Bytes.{IsString, IsString-same, Apart}
use almorina_os.Cstring.Fill.{memset_lem}
use almorina_os.Fs.{Fs}
use almorina_os.Fs.Walk.{walk, cleared, fs_get_inode_dir}

-- Behind `k` bytes of a name, every name that ends in a '/' has at most one byte.
abbrev pub HasShortNames : ℕ → List ℕ → Type 0
HasShortNames k [] = Unit {0}
HasShortNames k (c ∷ s) =
    (c ≡ b'/') × (k ≤ 1) × HasShortNames 0 s ⊎ (c ≢ b'/') × HasShortNames (k + 1) s

walk-short :
    (s : List ℕ) (fuel buffer start e k dir : ℕ) (fs : Fs)
    → length s < fuel
    → e ≡ start + k
    → HasShortNames k s
    → IsString fs.mem e s
    → walk fuel buffer start e dir 0 fs ≡ some (dir, fs)
unfolding walk
walk-short s zero buffer start e k dir fs enough at_end short is = absurd (omega arith)
walk-short [] (suc fuel) buffer start e k dir fs enough at_end short is = rw is refl
walk-short (c ∷ s) (suc fuel) buffer start e k dir fs enough at_end (inl (slash, few, short)) is =
    let one : ltb 1 (e - start) ≡ false = ground (arith, few) in
    let here : fs.mem e ≡ b'/' = is.0 ∙ slash in
    rw (here, one)
      (walk-short s fuel buffer (e + 1) (e + 1) 0 dir fs (omega arith) (omega arith) short is.2)
walk-short (c ∷ s) (suc fuel) buffer start e k dir fs enough at_end (inr (other, short)) is =
    let inside : (fs.mem e == 0) ≡ false = ground (arith, is.0, is.1) in
    let on : (fs.mem e == b'/') ≡ false = ground (arith, is.0, other) in
    rw (inside, on)
      (walk-short s fuel buffer start (e + 1) (k + 1) dir fs (omega arith) (omega arith) short is.2)

-- With enough fuel, for a path that does not start with '/' and has no directory name of two bytes or
-- more, `fs_get_inode_dir` returns the directory that it was given: it looks no name of one byte up.
-- The path and the local array do not overlap.
fs_get_inode_dir-short :
    (s : List ℕ) (fuel buffer root dir path : ℕ) (fs : Fs)
    → length s < fuel
    → HasShortNames 0 s
    → fs.mem path ≢ b'/'
    → IsString fs.mem path s
    → Apart path (length s + 1) buffer 124
    → fs_get_inode_dir fuel buffer root dir path fs ≡ some (dir, cleared buffer fs)
unfolding fs_get_inode_dir
fs_get_inode_dir-short s fuel buffer root dir path fs enough short relative is apart =
    let start : (fs.mem path == b'/') ≡ false = ground (arith, relative) in
    let kept = (memset_lem buffer 0 124 fs.mem).1 in
    let is' = IsString-same s fs.mem (memset buffer 0 124 fs.mem) path buffer 124 kept apart is in
    rw start
      (walk-short s fuel buffer path path 0 dir (cleared buffer fs) enough (omega arith) short is')
