-- ===== src/Keyboard/Tests.antt =====
-- The keyboard driver at power on and with shift held.
use almorina_os.Prelude.{◌≡◌, refl, arith, true, false, none, some, inl, inr, [], ◌∷◌}
use almorina_os.Vga.{ScreenCell, Vga}
use almorina_os.Stdio.{Stdio}
use almorina_os.Keyboard.{Keyboard, keyboard_handler}
use almorina_os.Cstring.{Memory}
use almorina_os.Cstring.Bytes.{SameOutside}
use almorina_os.Keyboard.Line.{fgets}
use almorina_os.Keyboard.Edited.{StandsAt, fgets_lem, fgets-backspace}
use almorina_os.Keyboard.Shift.{shift_then_release}

abbrev blank : ScreenCell
blank = record { character = 32; color = 7 }

abbrev empty_screen : Vga
empty_screen = record { video_memory = λ _. blank; cursor = record { x = 0; y = 0 }; ports = [] }

abbrev console : Stdio
console = record { vga = empty_screen; fg_color = 7; bg_color = 0 }

-- Shift was pressed.
abbrev shifted : Keyboard
shifted = record { curr_ch = 0; is_uppercase = false; is_shift = true; line_len = 1 }

shift_then_release_example : keyboard_handler 158 shifted console ≡ none
shift_then_release_example = shift_then_release 158 shifted console (omega arith) refl

abbrev no_bytes : Memory
no_bytes _ = 0

-- The keys "ab", a backspace, "c" and a newline, with a poll between them that finds no key.
fgets_lem_example :
    (m' : Memory) × (fgets (0 ∷ b'a' ∷ b'b' ∷ 8 ∷ 0 ∷ b'c' ∷ 10 ∷ []) 1000 200 no_bytes
      ≡ some (m', []))
    × StandsAt m' 1000 (10 ∷ b'c' ∷ b'a' ∷ [])
    × SameOutside 1000 200 no_bytes m'
fgets_lem_example =
    fgets_lem 0 (b'a' ∷ b'b' ∷ 8 ∷ 0 ∷ b'c' ∷ 10 ∷ []) 1000 200 no_bytes (omega arith) (omega arith)
      (omega arith)
      (
        inl (omega arith),
        (
          inl (omega arith),
          (inr (omega arith), (inl (omega arith), (inl (omega arith), (inl (omega arith), tt)))),
        ),
      )

fgets-backspace_example :
    (m' : Memory) × (fgets (0 ∷ 8 ∷ b'x' ∷ 10 ∷ []) 1000 200 no_bytes ≡ some (m', []))
    × (m' 999 ≡ b'x')
fgets-backspace_example =
    fgets-backspace 0 b'x' 1000 200 no_bytes (omega arith) (omega arith) (omega arith) (omega arith)
      (omega arith) (omega arith) (omega arith)
