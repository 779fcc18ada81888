-- ===== src/Stdio/Putf.antt =====
-- `putf`, src/c-code/stdio.c. A `float` is its pattern, and what the processor computes of such
-- patterns is the record `Singles`.
use almorina_os.Prelude.{ℕ, zero, suc, ◌+◌, ◌-◌, ◌%◌, ◌^◌, Bool, Option, some, ltb, if◌then◌else◌}
use almorina_os.Prelude.Words.{u8, u32}
use almorina_os.Prelude.Fault.{◌>>=◌}
use almorina_os.Stdio.{Stdio, putc, putd}

-- The operations of the processor; an `int` is its 32-bit pattern.
pub record Singles : Type 0 where
  pub of_int : ℕ → ℕ
  pub to_int : ℕ → ℕ
  pub subtract : ℕ → ℕ → ℕ
  pub multiply : ℕ → ℕ → ℕ
  pub is_positive : ℕ → Bool

-- `n % 10` of an `int`, which has the sign of `n`.
abbrev pub last_digit : ℕ → ℕ
last_digit n = if ltb n (2 ^ 31) then n % 10 else u32 (2 ^ 32 - (2 ^ 32 - n) % 10)

module _ (ops : Singles) where
  -- `f -= (int)f`
  abbrev pub fraction : ℕ → ℕ
  fraction f = ops.subtract f (ops.of_int (ops.to_int f))

  -- The loop, by the digits that are left.
  unfoldable pub print_fraction : ℕ → ℕ → Stdio → Stdio
  print_fraction zero f io = io
  print_fraction (suc k) f io =
      let ten = ops.multiply f (ops.of_int 10) in
      print_fraction k (fraction ten) (putc (u8 (last_digit (ops.to_int ten) + b'0')) io)

  unfoldable pub putf : ℕ → ℕ → Stdio → Option Stdio
  unfolding print_fraction
  putf fuel f io = putd fuel (ops.to_int f) io >>= λ io'.
      let rest = fraction f in
      some (if ops.is_positive rest then print_fraction 6 rest (putc b'.' io') else io')
