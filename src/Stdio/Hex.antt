-- ===== src/Stdio/Hex.antt =====
-- `puth`: the hexadecimal digits of an `int`.
use almorina_os.Prelude.{
  ℕ, zero, suc, ◌+◌, ◌-◌, ◌*◌, ◌/◌, ◌%◌, ◌≤◌, ◌<◌, ◌^◌, ◌≡◌, ◌≢◌, refl, sym, arith, ==→eq, List, [],
  ◌∷◌, length, Bool, Bool-cases, leb, ◌==◌, true, false, ◌&&◌, inl, inr, if◌then◌else◌,
}
use native.Mathlib.Nat.{pow-suc, div-div-eq-div-mul}
use almorina_os.Stdio.{Stdio, putc, hex_char, puth_loop, puth}
use almorina_os.Stdio.Decimal.{print}

-- The value of a hexadecimal digit, in either case.
abbrev pub hex_value : ℕ → ℕ
hex_value c = if leb b'a' c then c - b'a' + 10 else if leb b'A' c then c - b'A' + 10 else c - b'0'

abbrev pub number : ℕ → List ℕ → ℕ
number n [] = n
number n (c ∷ s) = number (n * 16 + hex_value c) s

hex_value-hex_char : (u : Bool) (d : ℕ) → d < 16 → hex_value (hex_char u d) ≡ d
unfolding hex_char
hex_value-hex_char u d h = ground arith

-- The digits that the rounds left print.
digits : ℕ → Bool → Bool → ℕ → List ℕ
digits zero u z n = []
digits (suc k) u z n =
    let d = n / 2 ^ (4 * k) % 16 in
    let skip = d == 0 && z in
    let rest = digits k u skip n in if skip then rest else hex_char u d ∷ rest

puth_loop-digits :
    (k : ℕ) (u z : Bool) (n : ℕ) (io : Stdio) → puth_loop k u z n io ≡ print (digits k u z n) io
unfolding puth_loop digits
puth_loop-digits zero u z n io = refl
puth_loop-digits (suc k) u z n io = elim (Bool-cases (n / 2 ^ (4 * k) % 16 == 0 && z)) [
  | inl skip ↦ rw skip (puth_loop-digits k u true n io)
  | inr shown ↦
      rw shown (puth_loop-digits k u false n (putc (hex_char u (n / 2 ^ (4 * k) % 16)) io))
]

pow_sixteen : (k : ℕ) → 2 ^ (4 * suc k) ≡ 2 ^ (4 * k) * 16
pow_sixteen k =
    let four : 4 * suc k ≡ suc (suc (suc (suc (4 * k)))) = omega arith in
    rw four (simp pow-suc (omega arith))

-- The rounds left complete the digits printed so far, which are none while zeroes are skipped.
number-digits :
    (k : ℕ) (u z : Bool) (n acc : ℕ)
    → acc ≡ n / 2 ^ (4 * k)
    → (z ≡ true → acc ≡ 0)
    → number acc (digits k u z n) ≡ n
unfolding digits
number-digits zero u z n acc e none_yet = ground (arith, e)
number-digits (suc k) u z n acc e none_yet =
    let above : n / 2 ^ (4 * suc k) ≡ n / 2 ^ (4 * k) / 16 =
      rw (pow_sixteen k) (sym (div-div-eq-div-mul n (2 ^ (4 * k)) 16)) in
    let d = n / 2 ^ (4 * k) % 16 in
    elim (Bool-cases (d == 0 && z)) [
      | inl skip ↦
          let skipping : z ≡ true = ground arith in
          rw skip (
            number-digits k u true n acc
              (omega (arith, none_yet skipping, ==→eq d 0 (ground arith))) (λ _. none_yet skipping))
      | inr shown ↦ rw shown (
          number-digits k u false n (acc * 16 + hex_value (hex_char u d))
            (omega (arith, hex_value-hex_char u d (omega arith))) (λ no_skip. cc))
    ]

length-digits : (k : ℕ) (u z : Bool) (n : ℕ) → length (digits k u z n) ≤ k
unfolding digits
length-digits zero u z n = omega arith
length-digits (suc k) u z n = elim (Bool-cases (n / 2 ^ (4 * k) % 16 == 0 && z)) [
  | inl skip ↦ rw skip (omega (arith, length-digits k u true n))
  | inr shown ↦ rw shown (omega (arith, length-digits k u false n))
]

-- The first of the characters, if there is one, is not '0'.
abbrev pub NoZeroFirst : List ℕ → Type 0
NoZeroFirst [] = Unit {0}
NoZeroFirst (c ∷ s) = c ≢ b'0'

hex_char-ne-zero : (u : Bool) (d : ℕ) → d < 16 → d ≢ 0 → hex_char u d ≢ b'0'
unfolding hex_char
hex_char-ne-zero u d h nonzero = ground arith

digits-NoZeroFirst : (k : ℕ) (u : Bool) (n : ℕ) → NoZeroFirst (digits k u true n)
unfolding digits
digits-NoZeroFirst zero u n = tt
digits-NoZeroFirst (suc k) u n = elim (Bool-cases (n / 2 ^ (4 * k) % 16 == 0 && true)) [
  | inl skip ↦ rw skip (digits-NoZeroFirst k u n)
  | inr shown ↦ rw shown (hex_char-ne-zero u (n / 2 ^ (4 * k) % 16) (omega arith) (ground arith))
]

-- `puth` prints at most eight characters, which spell the 32-bit pattern of the `int` in base 16;
-- unless it is 0, the first is not '0'.
puth_digits :
    (n : ℕ) (uppercase : Bool) (io : Stdio)
    → n < 2 ^ 32
    → (s : List ℕ) × (puth n uppercase io ≡ print s io)
      × (number 0 s ≡ n)
      × (length s ≤ 8)
      × (n ≢ 0 → NoZeroFirst s)
unfolding puth
puth_digits n u io small = elim (Bool-cases (n == 0)) [
  | inl null ↦ (b'0' ∷ [], rw null, omega (arith, ==→eq n 0 null), omega arith, λ h. ground arith)
  | inr other ↦ (
    digits 8 u true n,
    rw other (puth_loop-digits 8 u true n io),
    number-digits 8 u true n 0 (omega arith) (λ _. refl),
    length-digits 8 u true n,
    λ _. digits-NoZeroFirst 8 u n,
  )
]
