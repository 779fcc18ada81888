-- ===== src/Keyboard/Line.antt =====
-- The typed line, `fgets` of src/c-code/stdio.c. What `keyboard_getch` returns, call by call, is a
-- list, in which 0 stands for no key; behind its end the loop still waits, and the result is `none`.
-- Otherwise the memory is returned, and what the list still holds.
use almorina_os.Prelude.{
  ℕ, ◌+◌, ◌-◌, ◌^◌, Bool, not, ◌&&◌, Option, none, some, List, [], ◌∷◌, ltb, ◌==◌, if◌then◌else◌,
}
use almorina_os.Prelude.Words.{u32, u64}
use almorina_os.Prelude.Store.{update}
use almorina_os.Cstring.{Memory}
use almorina_os.Stdio.{backspace_char, newline_char}
use almorina_os.Fs.{int_to_u64}

-- `a < b` for `int`s.
abbrev pub int_less : ℕ → ℕ → Bool
int_less a b = ltb (u32 (a + 2 ^ 31)) (u32 (b + 2 ^ 31))

-- One key: the new index and memory.
unfoldable pub take_key : ℕ → ℕ → ℕ → Memory → ℕ × Memory
take_key ch dest i m =
    if ch == 0
    then (i, m)
    else if ch == backspace_char
    then (u32 (i + 2 ^ 32 - 1), m)
    else (u32 (i + 1), update m (u64 (dest + int_to_u64 i)) ch)

unfoldable pub fgets_loop : List ℕ → ℕ → ℕ → ℕ → Memory → Option (Memory × List ℕ)
unfolding take_key
fgets_loop [] dest n i m = none
fgets_loop (ch ∷ keys) dest n i m =
    let (i', m') = take_key ch dest i m in
    let rest = fgets_loop keys dest n i' m' in
    if int_less i' n && not (ch == newline_char) then rest else some (m', keys)

-- The first key is read over.
unfoldable pub fgets : List ℕ → ℕ → ℕ → Memory → Option (Memory × List ℕ)
unfolding fgets_loop
fgets [] dest n m = none
fgets (ch ∷ keys) dest n m = fgets_loop keys dest n 0 m
