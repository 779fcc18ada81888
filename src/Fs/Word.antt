-- ===== src/Fs/Word.antt =====
-- Words in a memory of bytes, the lowest byte first: the pointers that directory entries hold.
use almorina_os.Prelude.{ℕ, zero, suc, ◌+◌, ◌*◌, ◌/◌, ◌%◌, ◌≤◌, ◌<◌, ◌≡◌, ◌⊎◌, refl, arith}
use almorina_os.Prelude.Store.{update}
use almorina_os.Cstring.{Memory}

-- `n` bytes from `a` on.
unfoldable pub load : ℕ → ℕ → Memory → ℕ
load zero a m = 0
load (suc n) a m = m a + 256 * load n (a + 1) m

unfoldable pub store : ℕ → ℕ → ℕ → Memory → Memory
store zero a v m = m
store (suc n) a v m = update (store n (a + 1) (v / 256) m) a (v % 256)

-- `n` bytes hold the number.
abbrev pub Fits : ℕ → ℕ → Type 0
Fits zero v = v ≡ 0
Fits (suc n) v = Fits n (v / 256)

pub load-same :
    (n a : ℕ) (m m' : Memory)
    → ((q : ℕ) → a ≤ q → q < a + n → m' q ≡ m q)
    → load n a m' ≡ load n a m
unfolding load
load-same zero a m m' same = refl
load-same (suc n) a m m' same =
    let rest = load-same n (a + 1) m m' (λ q lo hi. same q (omega arith) (omega arith)) in
    let here = same a (omega arith) (omega arith) in omega (arith, rest, here)

pub load-store : (n a v : ℕ) (m : Memory) → Fits n v → load n a (store n a v m) ≡ v
unfolding load store
load-store zero a v m fits = omega arith
load-store (suc n) a v m fits =
    let inner = store n (a + 1) (v / 256) m in
    let rest = load-store n (a + 1) (v / 256) m fits in
    let kept = load-same n (a + 1) inner (update inner a (v % 256)) (λ q lo hi. ground arith) in
    let here : update inner a (v % 256) a ≡ v % 256 = ground arith in
    omega (arith, rest, kept, here)

pub store-other : (n a v q : ℕ) (m : Memory) → (q < a) ⊎ (a + n ≤ q) → store n a v m q ≡ m q
unfolding store
store-other zero a v q m out = refl
store-other (suc n) a v q m out = ground (arith, store-other n (a + 1) (v / 256) q m (ground arith))
