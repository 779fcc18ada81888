-- ===== src/Stdio.antt =====
-- Console output, src/c-code/stdio.c: the screen with the two colours that the file keeps. A
-- `char` is signed, so a byte from 128 on is negative and no printable character. `putf` and the
-- `%f` of `printf` take the arithmetic of `float` as an argument.
pub mod Scroll
pub mod Putc
pub mod Hex
pub mod Decimal
pub mod Printf
pub mod Putf
mod Tests
use Prim.Native.Nat.{bit_and}
use almorina_os.Prelude.{
  ℕ, zero, suc, ◌+◌, ◌-◌, ◌*◌, ◌/◌, ◌%◌, ◌^◌, Bool, true, false, ◌&&◌, not, Option, none, some,
  List, [], ◌∷◌, ltb, leb, ◌==◌, if◌then◌else◌,
}
use almorina_os.Prelude.Words.{u8, u32}
use almorina_os.Cstring.{Memory}
use almorina_os.Vga.{
  Vga, Cursor, screen_width, screen_height, vga_setch, vga_getch, vga_setcell, vga_setcurr,
  vga_movcurr,
}

pub record Stdio : Type 0 where
  pub vga : Vga
  pub fg_color : ℕ
  pub bg_color : ℕ

abbrev pub backspace_char : ℕ
backspace_char = 8

abbrev pub tab_char : ℕ
tab_char = 9

abbrev pub newline_char : ℕ
newline_char = 10

abbrev pub return_char : ℕ
return_char = 13

abbrev pub blank_char : ℕ
blank_char = 32

-- The inner loop of `scroll` for row `i`: `n` columns from `j` on take the character below.
scroll_row : ℕ → ℕ → ℕ → Vga → Vga
scroll_row zero j i v = v
scroll_row (suc n) j i v = scroll_row n (j + 1) i (vga_setch j i (vga_getch j (i + 1) v) v)

scroll_rows : ℕ → ℕ → Vga → Vga
scroll_rows zero i v = v
scroll_rows (suc n) i v = scroll_rows n (i + 1) (scroll_row screen_width 0 i v)

blank_row : ℕ → ℕ → Vga → Vga
blank_row zero j v = v
blank_row (suc n) j v = blank_row n (j + 1) (vga_setch j (screen_height - 1) blank_char v)

-- The cursor is the caller's copy, so it is passed in and returned.
pub scroll : Cursor → Vga → Cursor × Vga
scroll curr v =
    if leb screen_height curr.y
    then (
      record { x = 0; y = screen_height - 1 },
      blank_row screen_width 0 (scroll_rows (screen_height - 1) 0 v),
    )
    else (curr, v)

unfoldable pub set_fg_color : ℕ → Stdio → Stdio
set_fg_color color io = record io { fg_color = color }

-- The first half of `putc`: what the character does to the cursor and the cell under it.
unfoldable pub putc_char : ℕ → Stdio → Cursor × Vga
putc_char c io =
    let curr = io.vga.cursor in
    let back = u8 (curr.x + 256 - 1) in
    if c == backspace_char && not (curr.x == 0)
    then (
      record curr { x = back },
      vga_setcell back curr.y blank_char io.fg_color io.bg_color io.vga,
    )
    else if c == tab_char
    then (record curr { x = u8 (bit_and (curr.x + 8) 0xffff_fff8) }, io.vga)
    else if c == return_char
    then (record curr { x = 0 }, io.vga)
    else if c == newline_char
    then (record { x = 0; y = u8 (curr.y + 1) }, io.vga)
    else if leb blank_char c && ltb c 128
    then (
      record curr { x = u8 (curr.x + 1) },
      vga_setcell curr.x curr.y c io.fg_color io.bg_color io.vga,
    )
    else (curr, io.vga)

-- The end of a line.
unfoldable pub wrap : Cursor → Cursor
wrap curr = if leb screen_width curr.x then record { x = 0; y = u8 (curr.y + 1) } else curr

pub putc : ℕ → Stdio → Stdio
putc c io =
    let (curr, v) = putc_char c io in
    let (curr', v') = scroll (wrap curr) v in
    record io { vga = vga_movcurr (vga_setcurr curr'.x curr'.y v') }

-- The loops of `cls`, over the columns and the rows that are left.
clear_row : ℕ → ℕ → ℕ → Stdio → Vga → Vga
clear_row zero j i io v = v
clear_row (suc n) j i io v =
    clear_row n (j + 1) i io (vga_setcell j i blank_char io.fg_color io.bg_color v)

clear_rows : ℕ → ℕ → Stdio → Vga → Vga
clear_rows zero i io v = v
clear_rows (suc n) i io v = clear_rows n (i + 1) io (clear_row 80 0 i io v)

pub cls : Stdio → Stdio
cls io = record io { vga = vga_movcurr (vga_setcurr 0 0 (clear_rows 25 0 io io.vga)) }

-- `c[i]` is read afresh in each round; `none` means that the fuel ran out.
puts_loop : ℕ → ℕ → ℕ → Memory → Stdio → Option Stdio
puts_loop zero c i m io = none
puts_loop (suc fuel) c i m io =
    let rest = puts_loop fuel c (i + 1) m (putc (m (c + i)) io) in
    if m (c + i) == 0 then some io else rest

pub puts : ℕ → ℕ → Memory → Stdio → Option Stdio
puts fuel c m io = puts_loop fuel c 0 m io

-- `n` is an `int` by its 32-bit pattern; the rounds left stand for the shift `i`, and
-- `(n >> i) & 0xF` is the digit of weight 2 ^ i.
unfoldable pub hex_char : Bool → ℕ → ℕ
hex_char uppercase digit =
    if leb 0xa digit then digit - 0xa + (if uppercase then b'A' else b'a') else digit + b'0'

puth_loop : ℕ → Bool → Bool → ℕ → Stdio → Stdio
puth_loop zero uppercase no_zeroes n io = io
puth_loop (suc k) uppercase no_zeroes n io =
    let digit = n / 2 ^ (4 * k) % 16 in
    let skip = digit == 0 && no_zeroes in
    puth_loop k uppercase skip n (if skip then io else putc (hex_char uppercase digit) io)

pub puth : ℕ → Bool → Stdio → Stdio
puth n uppercase io = if n == 0 then putc b'0' io else puth_loop 8 uppercase true n io

-- Recursive in the source, with one call for each digit; `n > 9` is a signed test.
pub putd : ℕ → ℕ → Stdio → Option Stdio
putd zero n io = none
putd (suc fuel) n io =
    let a = n / 10 in
    let rest = putd fuel a io in
    if ltb 9 n && ltb n (2 ^ 31)
    then elim rest [ none ↦ none | some io' ↦ some (putc (u8 (b'0' + (n - 10 * a))) io') ]
    else some (putc (u8 (b'0' + n)) io)
