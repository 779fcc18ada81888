-- ===== src/Cstring/Number.antt =====
-- `atoi` on strings of digits.
use almorina_os.Prelude.{
  ℕ, zero, suc, ◌+◌, ◌-◌, ◌*◌, ◌≤◌, ◌<◌, ◌^◌, ◌≡◌, List, [], ◌∷◌, some, arith, length, All,
}
use almorina_os.Cstring.{Memory, atoi_loop, atoi}
use almorina_os.Cstring.Bytes.{IsString}

abbrev pub IsDigit : ℕ → Type 0
IsDigit c = (b'0' ≤ c) × (c ≤ b'9')

-- The number that digits spell behind `n`.
abbrev pub value : ℕ → List ℕ → ℕ
value n [] = n
value n (c ∷ s) = value (n * 10 + (c - b'0')) s

pub le-value : (s : List ℕ) (n : ℕ) → n ≤ value n s
le-value [] n = omega arith
le-value (c ∷ s) n = omega (arith, le-value s (n * 10 + (c - b'0')))

atoi_loop-value :
    (s : List ℕ) (fuel p n : ℕ) (m : Memory)
    → length s < fuel
    → All IsDigit s
    → value n s < 2 ^ 31
    → IsString m p s
    → atoi_loop fuel p n m ≡ some (value n s)
unfolding atoi_loop
atoi_loop-value s zero p n m enough digits small is = absurd (omega arith)
atoi_loop-value [] (suc fuel) p n m enough digits small is = ground arith
atoi_loop-value (c ∷ s) (suc fuel) p n m enough digits small is = ground (
  arith,
  le-value s (n * 10 + (c - b'0')),
  atoi_loop-value s fuel (p + 1) (n * 10 + (c - b'0')) m,
)

-- With enough fuel `atoi` reads the number that a string of digits spells, if an `int` holds it.
pub atoi-value :
    (s : List ℕ) (fuel p : ℕ) (m : Memory)
    → length s < fuel
    → All IsDigit s
    → value 0 s < 2 ^ 31
    → IsString m p s
    → atoi fuel p m ≡ some (value 0 s)
unfolding atoi
atoi-value s fuel p m enough digits small is = atoi_loop-value s fuel p 0 m enough digits small is
