-- ===== src/Cstring/Text.antt =====
-- A copy of a whole text by `strncpy`, by its length.
use mathlib.Core.Path.{subst}
use Prim.Native.Nat.{min}
use almorina_os.Prelude.{
  ℕ, ◌+◌, ◌<◌, ◌≤◌, ◌∙◌, ◌^◌, ◌≡◌, inr, arith, some, List, [], ◌∷◌, length, take, take-all,
}
use almorina_os.Cstring.{Memory, strncpy}
use almorina_os.Cstring.Bytes.{BytesAt, IsString, SameOutside, Apart}
use almorina_os.Cstring.Copy.{room, strncpy_lem}

-- Bytes with a NUL behind them, none of which is NUL, are a string.
pub BytesAt-IsString :
    (s : List ℕ) (m m' : Memory) (p q : ℕ)
    → IsString m p s
    → BytesAt m' q s
    → m' (q + length s) ≡ 0
    → IsString m' q s
BytesAt-IsString [] m m' p q is bytes end = ground (arith, end)
BytesAt-IsString (c ∷ s) m m' p q is bytes end =
    (bytes.0, is.1, BytesAt-IsString s m m' (p + 1) (q + 1) is.2 bytes.1 (ground (arith, end)))

-- A copy of a whole text, by its length, to a place where a NUL follows.
pub strncpy-whole :
    (c : ℕ) (s : List ℕ) (fuel dest src : ℕ) (m : Memory)
    → length (c ∷ s) < fuel
    → length (c ∷ s) < 2 ^ 16
    → Apart dest (length (c ∷ s)) src (length (c ∷ s) + 1)
    → IsString m src (c ∷ s)
    → (m' : Memory) × (strncpy fuel dest src (length (c ∷ s)) m ≡ some m')
      × BytesAt m' dest (c ∷ s)
      × SameOutside dest (length (c ∷ s)) m m'
strncpy-whole c s fuel dest src m enough small apart is =
    let n = length (c ∷ s) in
    let (m', runs, bytes, same) =
      strncpy_lem c s fuel dest src n m (omega arith) (omega arith) apart is in
    let whole : take (room n) (c ∷ s) ≡ c ∷ s = take-all (room n) (c ∷ s) (ground arith) in
    let all : min (room n) n ≡ n = ground arith in
    (m', runs, rw whole at bytes, subst (λ k. SameOutside dest k m m') all same)

-- The same to a place where a NUL follows.
pub strncpy-IsString :
    (c : ℕ) (s : List ℕ) (fuel dest src : ℕ) (m : Memory)
    → length (c ∷ s) < fuel
    → length (c ∷ s) < 2 ^ 16
    → Apart dest (length (c ∷ s)) src (length (c ∷ s) + 1)
    → IsString m src (c ∷ s)
    → m (dest + length (c ∷ s)) ≡ 0
    → (m' : Memory) × (strncpy fuel dest src (length (c ∷ s)) m ≡ some m')
      × IsString m' dest (c ∷ s)
      × SameOutside dest (length (c ∷ s)) m m'
strncpy-IsString c s fuel dest src m enough small apart is end =
    let (m', runs, bytes, same) = strncpy-whole c s fuel dest src m enough small apart is in
    let end' = same (dest + length (c ∷ s)) (inr (omega arith)) in
    (m', runs, BytesAt-IsString (c ∷ s) m m' src dest is bytes (ground (arith, end', end)), same)

-- Memories that agree on a string's bytes and its NUL both hold it.
pub IsString-agree :
    (s : List ℕ) (m m' : Memory) (p : ℕ)
    → ((q : ℕ) → p ≤ q → q ≤ p + length s → m' q ≡ m q)
    → IsString m p s
    → IsString m' p s
IsString-agree [] m m' p same is = ground (arith, same p)
IsString-agree (c ∷ s) m m' p same is = (
  same p (omega arith) (omega arith) ∙ is.0,
  is.1,
  IsString-agree s m m' (p + 1) (λ q lo hi. same q (omega arith) (omega arith)) is.2,
)
