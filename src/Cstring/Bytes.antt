-- ===== src/Cstring/Bytes.antt =====
-- What stands in memory: bytes at an address, and NUL-terminated strings.
use almorina_os.Prelude.{ℕ, suc, ◌++◌, ◌+◌, ◌≤◌, ◌<◌, ◌≡◌, ◌≢◌, ◌⊎◌, List, [], ◌∷◌, arith, length}
use almorina_os.Prelude.Store.{update}
use almorina_os.Cstring.{Memory}

abbrev pub BytesAt : Memory → ℕ → List ℕ → Type 0
BytesAt m p [] = Unit {0}
BytesAt m p (c ∷ s) = (m p ≡ c) × BytesAt m (p + 1) s

-- The string `s`, with no NUL in it, and a NUL behind it.
abbrev pub IsString : Memory → ℕ → List ℕ → Type 0
IsString m p [] = m p ≡ 0
IsString m p (c ∷ s) = (m p ≡ c) × (c ≢ 0) × IsString m (p + 1) s

-- `m'` is `m` but for the `n` bytes from `p` on.
abbrev pub SameOutside : ℕ → ℕ → Memory → Memory → Type 0
SameOutside p n m m' = (q : ℕ) → (q < p) ⊎ (p + n ≤ q) → m' q ≡ m q

-- `n` bytes at `p` and `k` bytes at `q` do not overlap.
abbrev pub Apart : ℕ → ℕ → ℕ → ℕ → Type 0
Apart p n q k = (p + n ≤ q) ⊎ (q + k ≤ p)

pub IsString-update :
    (s : List ℕ) (m : Memory) (p q c : ℕ)
    → (q < p) ⊎ (p + length s < q)
    → IsString m p s
    → IsString (update m q c) p s
IsString-update [] m p q c out is = ground arith
IsString-update (x ∷ s) m p q c out is = ground (arith, IsString-update s m (p + 1) q c)

-- What stands behind the first bytes of a string.
pub IsString-tail :
    (d t : List ℕ) (m : Memory) (p : ℕ) → IsString m p (d ++ t) → IsString m (p + length d) t
IsString-tail [] t m p is = let here : p ≡ p + 0 = omega arith in rw here at is
IsString-tail (c ∷ d) t m p is =
    let here : p + 1 + length d ≡ p + suc (length d) = omega arith in
    rw here at (IsString-tail d t m (p + 1) is.2)

pub IsString-end : (s : List ℕ) (m : Memory) (p : ℕ) → IsString m p s → m (p + length s) ≡ 0
IsString-end [] m p is = ground (arith, is)
IsString-end (c ∷ s) m p is = ground (arith, IsString-end s m (p + 1) is.2)

pub BytesAt-same :
    (s : List ℕ) (m m' : Memory) (p q n : ℕ)
    → SameOutside q n m m'
    → Apart p (length s) q n
    → BytesAt m p s
    → BytesAt m' p s
BytesAt-same [] m m' p q n same out b = tt
BytesAt-same (x ∷ s) m m' p q n same out b =
    (ground (arith, same p), BytesAt-same s m m' (p + 1) q n same (ground arith) b.1)

pub IsString-same :
    (s : List ℕ) (m m' : Memory) (p q n : ℕ)
    → SameOutside q n m m'
    → Apart p (length s + 1) q n
    → IsString m p s
    → IsString m' p s
IsString-same [] m m' p q n same out is = ground (arith, same p)
IsString-same (x ∷ s) m m' p q n same out is =
    (ground (arith, same p), is.1, IsString-same s m m' (p + 1) q n same (ground arith) is.2)
