-- ===== src/Prelude/Bits.antt =====
-- `bit_and` with masks of 16 bits at a time.
use Prim.Native.Nat.{
  ℕ, zero, suc, ◌+◌, ◌-◌, ◌*◌, ◌/◌, ◌%◌, ◌^◌, ◌≤◌, ◌<◌, min, bit_and, digits, bit_and-bitwise,
}
use mathlib.Core.Path.{◌≡◌, refl, ◌∙◌, ap}
use native.Mathlib.Omega.{arith}

-- What `bit_and` stands for, in `steps` rounds.
abbrev meet : ℕ → ℕ → ℕ → ℕ
meet steps x y = digits (λ _. 0) min steps x y

slack : (steps x y : ℕ) → x ≤ steps → meet (suc steps) x y ≡ meet steps x y
slack zero zero y room = refl
slack (suc steps) zero y room = refl
slack zero (suc x) y room = absurd (omega arith)
slack (suc steps) (suc x) y room =
    ap (λ high. high * 2 + min (suc x % 2) (y % 2)) (slack steps (suc x / 2) (y / 2) (omega arith))

abbrev rise : ℕ → ℕ → ℕ
rise zero steps = steps
rise (suc more) steps = suc (rise more steps)

rise_add : (more steps : ℕ) → rise more steps ≡ more + steps
rise_add zero steps = omega arith
rise_add (suc more) steps = omega (arith, rise_add more steps)

meet-rise : (more steps x y : ℕ) → x ≤ steps → meet (rise more steps) x y ≡ meet steps x y
meet-rise zero steps x y room = refl
meet-rise (suc more) steps x y room =
    slack (rise more steps) x y (omega (arith, rise_add more steps)) ∙ meet-rise more steps x y room

-- Rounds that are left over change nothing.
meet-enough : (steps x y : ℕ) → x ≤ steps → meet steps x y ≡ bit_and x y
meet-enough steps x y room =
    let all : rise (steps - x) x ≡ steps = omega (arith, rise_add (steps - x) x) in
    let law : bit_and x y ≡ meet x x y = bit_and-bitwise x y in
    rw law (rw all at (meet-rise (steps - x) x x y (omega arith)))

meet-nothing : (steps x : ℕ) → meet steps x 0 ≡ 0
meet-nothing zero x = refl
meet-nothing (suc steps) zero = refl
meet-nothing (suc steps) (suc x) = omega (arith, meet-nothing steps (suc x / 2))

nothing : (x : ℕ) → bit_and x 0 ≡ 0
nothing x = bit_and-bitwise x 0 ∙ meet-nothing x x

lowest : (x y : ℕ) → bit_and x y ≡ bit_and (x / 2) (y / 2) * 2 + min (x % 2) (y % 2)
lowest zero y = omega (arith, bit_and-bitwise 0 y, bit_and-bitwise 0 (y / 2))
lowest (suc x) y =
    let law : bit_and (suc x) y ≡ meet x (suc x / 2) (y / 2) * 2 + min (suc x % 2) (y % 2) =
      bit_and-bitwise (suc x) y in
    omega (arith, law, meet-enough x (suc x / 2) (y / 2) (omega arith))

bit_ones : (a b : ℕ) → bit_and a (b * 2 + 1) ≡ bit_and (a / 2) b * 2 + a % 2
bit_ones a b =
    let half : (b * 2 + 1) / 2 ≡ b = omega arith in omega (arith, rw half at (lowest a (b * 2 + 1)))

bit_zeros : (a b : ℕ) → bit_and a (b * 2) ≡ bit_and (a / 2) b * 2
bit_zeros a b =
    let half : b * 2 / 2 ≡ b = omega arith in omega (arith, rw half at (lowest a (b * 2)))

pair_ones : (a b : ℕ) → bit_and a (b * 4 + 3) ≡ bit_and (a / 4) b * 4 + a % 4
pair_ones a b =
    let high = b * 2 + 1 in
    let mask : b * 4 + 3 ≡ high * 2 + 1 = omega arith in
    let down : a / 2 / 2 ≡ a / 4 = omega arith in
    rw mask (omega (arith, bit_ones a high, rw down at (bit_ones (a / 2) b)))

pair_zeros : (a b : ℕ) → bit_and a (b * 4) ≡ bit_and (a / 4) b * 4
pair_zeros a b =
    let mask : b * 4 ≡ b * 2 * 2 = omega arith in
    let down : a / 2 / 2 ≡ a / 4 = omega arith in
    rw mask (omega (arith, bit_zeros a (b * 2), rw down at (bit_zeros (a / 2) b)))

nibble_ones : (a b : ℕ) → bit_and a (b * 16 + 15) ≡ bit_and (a / 16) b * 16 + a % 16
nibble_ones a b =
    let high = b * 4 + 3 in
    let mask : b * 16 + 15 ≡ high * 4 + 3 = omega arith in
    let down : a / 4 / 4 ≡ a / 16 = omega arith in
    rw mask (omega (arith, pair_ones a high, rw down at (pair_ones (a / 4) b)))

nibble_zeros : (a b : ℕ) → bit_and a (b * 16) ≡ bit_and (a / 16) b * 16
nibble_zeros a b =
    let mask : b * 16 ≡ b * 4 * 4 = omega arith in
    let down : a / 4 / 4 ≡ a / 16 = omega arith in
    rw mask (omega (arith, pair_zeros a (b * 4), rw down at (pair_zeros (a / 4) b)))

byte_ones : (a b : ℕ) → bit_and a (b * 256 + 255) ≡ bit_and (a / 256) b * 256 + a % 256
byte_ones a b =
    let high = b * 16 + 15 in
    let mask : b * 256 + 255 ≡ high * 16 + 15 = omega arith in
    let down : a / 16 / 16 ≡ a / 256 = omega arith in
    rw mask (omega (arith, nibble_ones a high, rw down at (nibble_ones (a / 16) b)))

byte_zeros : (a b : ℕ) → bit_and a (b * 256) ≡ bit_and (a / 256) b * 256
byte_zeros a b =
    let mask : b * 256 ≡ b * 16 * 16 = omega arith in
    let down : a / 16 / 16 ≡ a / 256 = omega arith in
    rw mask (omega (arith, nibble_zeros a (b * 16), rw down at (nibble_zeros (a / 16) b)))

word_ones : (a b : ℕ) → bit_and a (b * 65536 + 65535) ≡ bit_and (a / 65536) b * 65536 + a % 65536
word_ones a b =
    let high = b * 256 + 255 in
    let mask : b * 65536 + 65535 ≡ high * 256 + 255 = omega arith in
    let down : a / 256 / 256 ≡ a / 65536 = omega arith in
    rw mask (omega (arith, byte_ones a high, rw down at (byte_ones (a / 256) b)))

word_zeros : (a b : ℕ) → bit_and a (b * 65536) ≡ bit_and (a / 65536) b * 65536
word_zeros a b =
    let mask : b * 65536 ≡ b * 256 * 256 = omega arith in
    let down : a / 256 / 256 ≡ a / 65536 = omega arith in
    rw mask (omega (arith, byte_zeros a (b * 256), rw down at (byte_zeros (a / 256) b)))

-- The masks of `set_offset`, on an address of 64 bits.
pub bit_and-low : (a : ℕ) → bit_and a 0xffff ≡ a % 2 ^ 16
bit_and-low a = omega (arith, word_ones a 0, nothing (a / 65536))

pub bit_and-mid : (a : ℕ) → bit_and a 0xffff0000 / 2 ^ 16 ≡ a / 2 ^ 16 % 2 ^ 16
bit_and-mid a = omega (arith, word_zeros a 0xffff, bit_and-low (a / 65536))

pub bit_and-high : (a : ℕ) → bit_and a 0xffffffff00000000 / 2 ^ 32 ≡ a / 2 ^ 32 % 2 ^ 32
bit_and-high a = omega (
  arith,
  word_zeros a 0xffffffff0000,
  word_zeros (a / 65536) 0xffffffff,
  word_ones (a / 65536 / 65536) 0xffff,
  bit_and-low (a / 65536 / 65536 / 65536),
)

-- The mask of all multiples of 8 below 2 ^ 32.
pub bit_and-multiple : (a : ℕ) → a < 2 ^ 32 → bit_and a 0xfffffff8 ≡ a / 8 * 8
bit_and-multiple a small =
    let b = a / 8 in
    let down : a / 4 / 2 ≡ b = omega arith in
    let third : bit_and a 0xfffffff8 ≡ bit_and b 0x1fffffff * 8 =
      omega (arith, pair_zeros a 0x3ffffffe, rw down at (bit_zeros (a / 4) 0x1fffffff)) in
    omega (
      arith,
      third,
      word_ones b 0x1fff,
      byte_ones (b / 65536) 0x1f,
      nibble_ones (b / 65536 / 256) 1,
      bit_ones (b / 65536 / 256 / 16) 0,
      nothing (b / 65536 / 256 / 16 / 2),
    )

-- The two bytes of 16 bits.
pub bit_and-byte : (a : ℕ) → bit_and a 0xff ≡ a % 2 ^ 8
bit_and-byte a = omega (arith, byte_ones a 0, nothing (a / 256))

pub bit_and-second : (a : ℕ) → bit_and a 0xff00 / 2 ^ 8 ≡ a / 2 ^ 8 % 2 ^ 8
bit_and-second a = omega (arith, byte_zeros a 0xff, bit_and-byte (a / 256))
