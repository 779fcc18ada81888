-- ===== src/Interrupts/Frequency.antt =====
-- The frequency that the timer of src/c-code/pit.c runs at.
use native.Mathlib.Nat.{
  mul-div-le, lt-mul-div-succ, le-div_iff_mul-le, mul-le-mul_right, div-lt_iff_lt-mul,
}
use Prim.Native.Nat.{bit_and}
use almorina_os.Prelude.{
  ℕ, ◌+◌, ◌-◌, ◌*◌, ◌/◌, ◌^◌, ◌≤◌, ◌<◌, ◌≡◌, refl, arith, true, false, ◌||◌, [], ◌∷◌, leb, ltb,
  ◌==◌,
}
use almorina_os.Prelude.Words.{u8, u16}
use almorina_os.Prelude.Bits.{bit_and-byte, bit_and-second}
use almorina_os.Prelude.Table.{all_below, all_below_sound}
use almorina_os.Interrupts.{out_b, io_wait, base_frequency, pit_get_frequency, pit_set_frequency}

le_div : (n f k : ℕ) → 1 ≤ f → k * f ≤ n → k ≤ n / f
le_div n f k some_f le = (le-div_iff_mul-le (omega (arith, some_f))).1 le

div_lt : (n f k : ℕ) → 1 ≤ f → n < k * f → n / f < k
div_lt n f k some_f lt = (div-lt_iff_lt-mul (omega (arith, some_f))).1 lt

excess : (n f d k : ℕ) → 100 ≤ d → d * (f + k) ≤ n → n < f * (d + 1) → k * 100 < f
excess n f d k large low high = omega (arith, mul-le-mul_right k large)

-- What a quotient by the quotient loses.
div-div : (n f d : ℕ) → n / f ≡ d → 100 ≤ d → 1 ≤ f → (f ≤ n / d) × (n / d - f) * 100 < f
div-div n f d quotient large some_f =
    let g = n / d in
    let low : f * d ≤ n = rw quotient at (mul-div-le n f) in
    let high : n < f * (d + 1) =
      rw quotient at (lt-mul-div-succ n {b = f} (omega (arith, some_f))) in
    let above : f ≤ g = le_div n d f (omega (arith, large)) low in
    let below : g ≡ f + (g - f) = omega (arith, above) in
    (above, excess n f d (g - f) large (rw below at (mul-div-le n d)) high)

pit_bytes : (d : ℕ) → d < 2 ^ 16 → u8 (bit_and d 0xff) + u8 (bit_and d 0xff00 / 2 ^ 8) * 2 ^ 8 ≡ d
pit_bytes d small = omega (arith, small, bit_and-byte d, bit_and-second d)

-- From 19 Hz to 11931 Hz, `PIT_set_frequency` sends the low byte of the divisor and then its high
-- byte, and `PIT_get_frequency` is then the frequency that was asked for or up to one percent above.
pub pit_set_frequency_lem :
    (f : ℕ)
    → 19 ≤ f
    → f ≤ 11931
    → let (d, ports) = pit_set_frequency f in
      ((low : ℕ) × (high : ℕ) × (ports ≡ out_b 0x40 low ∷ io_wait ∷ out_b 0x40 high ∷ [])
        × (low < 2 ^ 8)
        × (high < 2 ^ 8)
        × (low + high * 2 ^ 8 ≡ d))
      × (f ≤ pit_get_frequency d)
      × (pit_get_frequency d - f) * 100 < f
unfolding pit_set_frequency pit_get_frequency
pit_set_frequency_lem f lo hi =
    let d = base_frequency / f in
    let large : 100 ≤ d = le_div base_frequency f 100 (omega arith) (omega arith) in
    let small : d < 2 ^ 16 = div_lt base_frequency f (2 ^ 16) (omega arith) (omega arith) in
    let same : u16 d ≡ d = omega (arith, small) in
    let enough : ltb d 100 ≡ false = ground (arith, large) in
    let (above, close) = div-div base_frequency f d refl large (omega arith) in
    rw (same, enough)
      (
        (
          u8 (bit_and d 0xff),
          u8 (bit_and d 0xff00 / 2 ^ 8),
          refl,
          omega arith,
          omega arith,
          pit_bytes d small,
        ),
        above,
        close,
      )

slow_table : all_below 19 (λ f. f == 0 || leb 22 (pit_get_frequency (pit_set_frequency f).0)) ≡ true
unfolding all_below pit_set_frequency pit_get_frequency
slow_table = refl

-- Below 19 Hz the divisor does not fit: the timer runs at 22 Hz at least, whatever lower frequency it
-- is set to.
pub pit_set_frequency-slow :
    (f : ℕ) → 1 ≤ f → f < 19 → 22 ≤ pit_get_frequency (pit_set_frequency f).0
pit_set_frequency-slow f some_f small =
    let fact = all_below_sound 19 _ f slow_table small in ground arith
