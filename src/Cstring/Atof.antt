-- ===== src/Cstring/Atof.antt =====
-- `atof`, src/c-code/string.c. A `double` is its pattern, and what the processor computes of such
-- patterns is the record `Decimals`. A character is the promoted `char`; `isdigit` is that of
-- src/c-code/shell.c, which takes a `char`.
use almorina_os.Prelude.{
  ℕ, zero, suc, ◌+◌, ◌-◌, ◌*◌, ◌^◌, ◌<◌, ◌≡◌, refl, ◌∙◌, arith, true, false, not, ◌&&◌, ◌||◌,
  Option, none, some, List, [], ◌∷◌, length, All, leb, ltb, ◌==◌, if◌then◌else◌,
}
use almorina_os.Prelude.Words.{u8, u32}
use almorina_os.Prelude.Fault.{◌>>=◌}
use almorina_os.Cstring.{Memory, char_to_int}
use almorina_os.Cstring.Bytes.{BytesAt, IsString, IsString-end}
use almorina_os.Cstring.Number.{IsDigit}
use almorina_os.Shell.{isdigit}

-- The operations of the processor, and the pattern of 0.1; an `int` is its 32-bit pattern.
pub record Decimals : Type 0 where
  pub of_int : ℕ → ℕ
  pub add : ℕ → ℕ → ℕ
  pub multiply : ℕ → ℕ → ℕ
  pub tenth : ℕ

-- `c - '0'`
abbrev pub digit : ℕ → ℕ
digit c = u32 (c + 2 ^ 32 - b'0')

-- The digits of the exponent: the number, and the character behind them.
unfoldable pub exponent_loop : ℕ → ℕ → ℕ → ℕ → Memory → Option ℕ
exponent_loop zero c s i m = none
exponent_loop (suc fuel) c s i m =
    let rest = exponent_loop fuel (char_to_int (m s)) (s + 1) (u32 (i * 10 + digit c)) m in
    if isdigit (u8 c) then rest else some i

-- The sign behind the 'e', and the exponent as an `int`.
unfoldable pub exponent : ℕ → ℕ → Memory → Option ℕ
unfolding exponent_loop
exponent fuel s m =
    let c = char_to_int (m s) in
    let d = char_to_int (m (s + 1)) in
    if c == b'+'
    then exponent_loop fuel d (s + 2) 0 m
    else if c == b'-'
    then (exponent_loop fuel d (s + 2) 0 m >>= λ i. some (u32 (2 ^ 32 - i)))
    else exponent_loop fuel c (s + 1) 0 m

module _ (ops : Decimals) where
  -- Digits from `s` on: the number, how many there are, the character behind them, and the address
  -- behind that.
  unfoldable pub digits_loop : ℕ → ℕ → ℕ → ℕ → Memory → Option (ℕ × ℕ × ℕ × ℕ)
  digits_loop zero s a k m = none
  digits_loop (suc fuel) s a k m =
      let c = char_to_int (m s) in
      let a' = ops.add (ops.multiply a (ops.of_int 10)) (ops.of_int (digit c)) in
      let rest = digits_loop fuel (s + 1) a' (k + 1) m in
      if not (c == 0) && isdigit (u8 c) then rest else some (a, k, c, s + 1)

  -- The loops over `e`, by the rounds.
  unfoldable pub scale : ℕ → ℕ → ℕ → ℕ
  scale zero by a = a
  scale (suc e) by a = scale e by (ops.multiply a by)

  unfoldable pub scale_by : ℕ → ℕ → ℕ
  unfolding scale
  scale_by e a =
      if ltb e (2 ^ 31) then scale e (ops.of_int 10) a else scale (2 ^ 32 - e) ops.tenth a

  unfoldable pub atof : ℕ → ℕ → Memory → Option ℕ
  unfolding digits_loop exponent scale_by
  atof fuel str m = digits_loop fuel str (ops.of_int 0) 0 m >>= λ whole.
      let (a, _, c, s) = whole in
      let point = digits_loop fuel s a 0 m in
      (if c == b'.' then point else some (a, 0, c, s)) >>= λ all.
      let (a', k, c', s') = all in
      let e = u32 (2 ^ 32 - k) in
      let exp = exponent fuel s' m in
      (if c' == b'e' || c' == b'E' then exp else some 0) >>= λ i. some (scale_by (u32 (e + i)) a')

IsString-BytesAt : (s : List ℕ) (m : Memory) (p : ℕ) → IsString m p s → BytesAt m p s
IsString-BytesAt [] m p is = tt
IsString-BytesAt (c ∷ s) m p is = (is.0, IsString-BytesAt s m (p + 1) is.2)

module _ (ops : Decimals) where
  -- The number that digits spell behind `a`, in `double`.
  abbrev pub spelled : ℕ → List ℕ → ℕ
  spelled a [] = a
  spelled a (c ∷ d) = spelled (ops.add (ops.multiply a (ops.of_int 10)) (ops.of_int (c - b'0'))) d

  digits_loop-digit :
      (x fuel s a k : ℕ) (m : Memory)
      → m s ≡ x
      → IsDigit x
      → digits_loop ops (suc fuel) s a k m
        ≡ digits_loop ops fuel
            (s + 1)
            (ops.add (ops.multiply a (ops.of_int 10)) (ops.of_int (x - b'0')))
            (k + 1)
            m
  unfolding digits_loop isdigit
  digits_loop-digit x fuel s a k m here is =
      let char : char_to_int x ≡ x = ground (arith, is) in
      let byte : (x == 0) ≡ false = ground (arith, is) in
      let same : u8 x ≡ x = omega (arith, is) in
      let lo : leb b'0' x ≡ true = ground (arith, is) in
      let hi : leb x b'9' ≡ true = ground (arith, is) in
      let spells : digit x ≡ x - b'0' = omega (arith, is) in
      rw here (rw (char, byte, same, lo, hi, spells) refl)

  digits_loop-end :
      (c fuel s a k : ℕ) (m : Memory)
      → m s ≡ c
      → c < b'0'
      → digits_loop ops (suc fuel) s a k m ≡ some (a, k, c, s + 1)
  unfolding digits_loop isdigit
  digits_loop-end c fuel s a k m here low =
      let char : char_to_int c ≡ c = ground (arith, low) in
      let same : u8 c ≡ c = omega (arith, low) in
      let lo : leb b'0' c ≡ false = ground (arith, low) in
      rw here (rw (char, same, lo) (ground arith))

  digits_loop_lem :
      (d : List ℕ) (c fuel s a k : ℕ) (m : Memory)
      → length d < fuel
      → All IsDigit d
      → BytesAt m s d
      → m (s + length d) ≡ c
      → c < b'0'
      → digits_loop ops fuel s a k m ≡ some (spelled a d, k + length d, c, s + length d + 1)
  digits_loop_lem d c zero s a k m enough digits at stop low = absurd (omega arith)
  digits_loop_lem [] c (suc fuel) s a k m enough digits at stop low =
      let here : s + 0 ≡ s = omega arith in
      let none_more : k + 0 ≡ k = omega arith in
      rw (here, none_more) (digits_loop-end c fuel s a k m (rw here at stop) low)
  digits_loop_lem (x ∷ d) c (suc fuel) s a k m enough digits at stop low =
      let next : s + suc (length d) ≡ s + 1 + length d = omega arith in
      let more : k + suc (length d) ≡ k + 1 + length d = omega arith in
      let one = ops.add (ops.multiply a (ops.of_int 10)) (ops.of_int (x - b'0')) in
      rw (next, more)
        (digits_loop-digit x fuel s a k m at.0 digits.0
          ∙ digits_loop_lem d c fuel (s + 1) one (k + 1) m (omega arith) digits.1 at.1
              (rw next at stop) low)

  -- With enough fuel, `atof` of digits, a point and digits reads all digits as one whole number, and
  -- takes a tenth of it for each digit behind the point.
  atof_decimal :
      (d e : List ℕ) (fuel p : ℕ) (m : Memory)
      → length d < fuel
      → length e < fuel
      → length e < 2 ^ 31
      → All IsDigit d
      → All IsDigit e
      → BytesAt m p d
      → IsString m (p + length d) (b'.' ∷ e)
      → atof ops fuel p m
        ≡ some (scale_by ops (u32 (2 ^ 32 - length e)) (spelled (spelled (ops.of_int 0) d) e))
  unfolding atof
  atof_decimal d e fuel p m enough enough' small digits digits' at is =
      let whole =
        digits_loop_lem d b'.' fuel p (ops.of_int 0) 0 m enough digits at is.0 (omega arith) in
      let start = p + length d + 1 in
      let fraction =
        digits_loop_lem e 0 fuel start (spelled (ops.of_int 0) d) 0 m enough' digits'
          (IsString-BytesAt e m start is.2) (IsString-end e m start is.2) (omega arith) in
      let count : 0 + length e ≡ length e = omega arith in
      let exponent_is : u32 (u32 (2 ^ 32 - length e) + 0) ≡ u32 (2 ^ 32 - length e) =
        omega (arith, small) in
      rw (whole, fraction) (rw (count, exponent_is) refl)
