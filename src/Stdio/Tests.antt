-- ===== src/Stdio/Tests.antt =====
-- The console at power on, in light grey on black.
use almorina_os.Prelude.{ℕ, ◌<◌, ◌≡◌, arith, some, List, [], length, All, ◌==◌, if◌then◌else◌}
use almorina_os.Cstring.{Memory}
use almorina_os.Cstring.Number.{IsDigit, value}
use almorina_os.Vga.{Vga, Cursor, ScreenCell}
use almorina_os.Stdio.{Stdio, putc, putd}
use almorina_os.Stdio.Putc.{OnScreen, putc-OnScreen}
use almorina_os.Stdio.Decimal.{print, putd_digits}

abbrev cell : ScreenCell
cell = record { character = 32; color = 7 }

abbrev screen : Vga
screen = record { video_memory = λ _. cell; cursor = record { x = 79; y = 2 }; ports = [] }

abbrev console : Stdio
console = record { vga = screen; fg_color = 7; bg_color = 0 }

abbrev below : Cursor
below = record { x = 3; y = 25 }

putc-OnScreen_example : OnScreen (putc b'x' console).vga.cursor
putc-OnScreen_example = putc-OnScreen b'x' console (omega arith, omega arith)

abbrev hi : Memory
hi q = if q == 100 then b'h' else if q == 101 then b'i' else 0

putd_digits_example :
    (s : List ℕ) × (putd 3 407 console ≡ some (print s console))
    × All IsDigit s
    × (value 0 s ≡ 407)
    × (0 < length s)
putd_digits_example = putd_digits 2 407 console (omega arith) (omega arith)

abbrev beef : ℕ
beef = 0xbeef

-- "5%%" shows no '%' at all.
abbrev percents : Memory
percents q = if q == 100 then b'5' else if q == 101 then b'%' else if q == 102 then b'%' else 0
