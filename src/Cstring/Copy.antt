-- ===== src/Cstring/Copy.antt =====
-- `strcpy` and `strncpy`.
use Prim.Native.Nat.{min}
use almorina_os.Prelude.{
  ℕ, zero, suc, ◌+◌, ◌-◌, ◌<◌, ◌^◌, ◌≡◌, ◌∙◌, List, [], ◌∷◌, some, arith, length, take, ◌==◌,
  if◌then◌else◌,
}
use almorina_os.Prelude.Words.{u32}
use almorina_os.Prelude.Store.{update}
use almorina_os.Cstring.{Memory, strcpy, strncpy}
use almorina_os.Cstring.Bytes.{BytesAt, IsString, IsString-update, SameOutside, Apart}

-- With enough fuel, and between regions that do not overlap, `strcpy` makes the string at `dest`
-- that at `src`, and writes nothing but its bytes and its NUL.
pub strcpy_lem :
    (s : List ℕ) (fuel dest src : ℕ) (m : Memory)
    → length s < fuel
    → Apart dest (length s + 1) src (length s + 1)
    → IsString m src s
    → (m' : Memory) × (strcpy fuel dest src m ≡ some m')
      × IsString m' dest s
      × SameOutside dest (length s + 1) m m'
unfolding strcpy
strcpy_lem s zero dest src m enough apart is = absurd (omega arith)
strcpy_lem [] (suc fuel) dest src m enough apart is =
    (update m dest (m src), ground arith, ground arith, λ q out. ground arith)
strcpy_lem (c ∷ s) (suc fuel) dest src m enough apart (at, nonzero, is) =
    let (m', run, copied, same) =
      strcpy_lem s fuel (dest + 1) (src + 1) (update m dest (m src)) (omega arith) (ground arith)
        (IsString-update s m (src + 1) dest (m src) (ground arith) is) in
    (
      m',
      ground (arith, run),
      (same dest (ground arith) ∙ ground arith, nonzero, copied),
      λ q out. same q (ground arith) ∙ ground arith,
    )

-- How many bytes a `size` stands for: a size of 0 is decremented first, and wraps.
abbrev pub room : ℕ → ℕ
room size = if size == 0 then 2 ^ 32 else size

-- The loop, by the rounds that are left: `size` is `j + 1`, modulo 2 ^ 32.
strncpy_rounds :
    (j c : ℕ) (s : List ℕ) (fuel dest src size : ℕ) (m : Memory)
    → length s < fuel
    → j < 2 ^ 32
    → size ≡ u32 (j + 1)
    → Apart dest (length (c ∷ s)) src (length (c ∷ s) + 1)
    → IsString m src (c ∷ s)
    → (m' : Memory) × (strncpy fuel dest src size m ≡ some m')
      × BytesAt m' dest (take (suc j) (c ∷ s))
      × SameOutside dest (min (suc j) (length (c ∷ s))) m m'
unfolding strncpy
strncpy_rounds j c s zero dest src size m enough small e apart is = absurd (omega arith)
strncpy_rounds zero c s (suc fuel) dest src size m enough small e apart is =
    (update m dest (m src), ground arith, ground arith, λ q out. ground arith)
strncpy_rounds (suc j) c [] (suc fuel) dest src size m enough small e apart is =
    (update m dest (m src), ground arith, ground arith, λ q out. ground arith)
strncpy_rounds (suc j) c (d ∷ s) (suc fuel) dest src size m enough small e apart (at, nonzero, is) =
    let (m', run, copied, same) =
      strncpy_rounds j d s fuel (dest + 1) (src + 1) (u32 (size + 2 ^ 32 - 1))
        (update m dest (m src)) (omega arith) (omega arith) (omega arith) (ground arith)
        (IsString-update (d ∷ s) m (src + 1) dest (m src) (ground arith) is) in
    (
      m',
      ground (arith, run),
      (same dest (ground arith) ∙ ground arith, copied),
      λ q out. same q (ground arith) ∙ ground arith,
    )

-- With enough fuel `strncpy` copies the first `size` bytes of a string that has at least one byte,
-- or all of them if there are fewer, and writes nothing else: no NUL, and a size of 0 counts as
-- 2 ^ 32.
pub strncpy_lem :
    (c : ℕ) (s : List ℕ) (fuel dest src size : ℕ) (m : Memory)
    → length s < fuel
    → size < 2 ^ 32
    → Apart dest (length (c ∷ s)) src (length (c ∷ s) + 1)
    → IsString m src (c ∷ s)
    → (m' : Memory) × (strncpy fuel dest src size m ≡ some m')
      × BytesAt m' dest (take (room size) (c ∷ s))
      × SameOutside dest (min (room size) (length (c ∷ s))) m m'
strncpy_lem c s fuel dest src size m enough small apart is =
    let counts : room size ≡ suc (room size - 1) = ground arith in
    let got =
      strncpy_rounds (room size - 1) c s fuel dest src size m enough (ground arith) (ground arith)
        apart is in
    rw counts got
