-- ===== src/Stdio/Printf.antt =====
-- `printf`, src/c-code/stdio.c. The arguments are a list of 64-bit words, of which `va_arg` takes the
-- first; a missing one is undefined, and the result `none`. `%f` prints by `putf`
-- (Stdio.Putf), which is an argument.
pub mod Plain
use almorina_os.Prelude.{
  ℕ, zero, suc, ◌+◌, Bool, true, false, ◌&&◌, ◌||◌, Option, none, some, List, [], ◌∷◌, ◌==◌,
  if◌then◌else◌,
}
use almorina_os.Prelude.Words.{u8, u32}
use almorina_os.Prelude.Fault.{◌>>=◌}
use almorina_os.Cstring.{Memory}
use almorina_os.Stdio.{Stdio, putc, putd, puth, puts}

-- The cases of the `switch`.
unfoldable pub is_directive : ℕ → Bool
is_directive d = d == b'd' || d == b'x' || d == b'X' || d == b'c' || d == b'f' || d == b's'

module _ (putf : ℕ → Stdio → Option Stdio) where
  -- What a directive prints of its argument.
  unfoldable pub print_argument : ℕ → ℕ → ℕ → Memory → Stdio → Option Stdio
  print_argument fuel d argument m io =
      if d == b'd'
      then putd fuel (u32 argument) io
      else if d == b'x'
      then some (puth (u32 argument) false io)
      else if d == b'X'
      then some (puth (u32 argument) true io)
      else if d == b'c'
      then some (putc (u8 argument) io)
      else if d == b'f'
      then putf argument io
      else puts fuel argument m io

  -- The `default` case takes `i` back, so that only the '%' is passed over. `limit` is the fuel of
  -- the printing functions.
  unfoldable pub printf_loop : ℕ → ℕ → ℕ → ℕ → List ℕ → Memory → Stdio → Option Stdio
  printf_loop limit zero format i arguments m io = none
  printf_loop limit (suc fuel) format i arguments m io =
      let c = m (format + i) in
      let d = m (format + i + 1) in
      let skipped = printf_loop limit fuel format (i + 1) arguments m io in
      let shown = printf_loop limit fuel format (i + 1) arguments m (putc c io) in
      if c == 0
      then some io
      else if c == b'%' && is_directive d
      then elim arguments [
        | [] ↦ none
        | a ∷ later ↦
            print_argument limit d a m io >>= printf_loop limit fuel format (i + 2) later m
      ]
      else if c == b'%'
      then skipped
      else shown

  unfoldable pub printf : ℕ → ℕ → List ℕ → Memory → Stdio → Option Stdio
  printf fuel format arguments m io = printf_loop fuel fuel format 0 arguments m io
