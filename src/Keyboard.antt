-- ===== src/Keyboard.antt =====
-- The keyboard driver, src/c-code/keyboard.c. A scancode is a byte. A read of the table of shifted
-- symbols out of its 59 entries has no defined result: the handler's result is then `none`.
-- `line_len` is an `int` that the code keeps from going below 0.
pub mod Keys
pub mod Shift
pub mod Line
pub mod Edited
pub mod Straight
mod Tests
use almorina_os.Prelude.{
  ℕ, ◌+◌, ◌-◌, Bool, true, false, not, ◌&&◌, ◌||◌, Option, none, some, List, [], ◌∷◌, ◌++◌, ltb,
  leb, ◌==◌, if◌then◌else◌, get_or, get_elem?, replicate,
}
use almorina_os.Stdio.{Stdio, putc}

abbrev pub left_shift : ℕ
left_shift = 15

abbrev pub right_shift : ℕ
right_shift = 15

abbrev pub caps_lock : ℕ
caps_lock = 58

-- `static` variables of the file.
pub record Keyboard : Type 0 where
  pub curr_ch : ℕ
  pub is_uppercase : Bool
  pub is_shift : Bool
  pub line_len : ℕ

abbrev pub power_on : Keyboard
power_on = record { curr_ch = 0; is_uppercase = false; is_shift = false; line_len = 1 }

unfoldable pub scancodes_table : List ℕ
scancodes_table =
    (0 ∷ 27 ∷ b'1' ∷ b'2' ∷ b'3' ∷ b'4' ∷ b'5' ∷ b'6' ∷ b'7' ∷ b'8' ∷ b'9' ∷ b'0' ∷ b'-' ∷ b'=' ∷ 8
      ∷ 9 ∷ b'q' ∷ b'w' ∷ b'e' ∷ b'r' ∷ b't' ∷ b'y' ∷ b'u' ∷ b'i' ∷ b'o' ∷ b'p' ∷ b'[' ∷ b']' ∷ 10
      ∷ 0 ∷ b'a' ∷ b's' ∷ b'd' ∷ b'f' ∷ b'g' ∷ b'h' ∷ b'j' ∷ b'k' ∷ b'l' ∷ b';' ∷ 39 ∷ b'`'
      ∷ left_shift ∷ 92 ∷ b'z' ∷ b'x' ∷ b'c' ∷ b'v' ∷ b'b' ∷ b'n' ∷ b'm' ∷ b',' ∷ b'.' ∷ b'/'
      ∷ right_shift ∷ b'*' ∷ 0 ∷ b' ' ∷ caps_lock ∷ [])
    ++ replicate 69 0

-- The source writes 58 of the 59 entries; the last is 0.
unfoldable pub shift_symbols_table : List ℕ
shift_symbols_table =
    34
    ∷ 0
    ∷ 0
    ∷ 0
    ∷ 0
    ∷ b'<'
    ∷ b'_'
    ∷ b'>'
    ∷ b'?'
    ∷ b')'
    ∷ b'!'
    ∷ b'@'
    ∷ b'#'
    ∷ b'$'
    ∷ b'%'
    ∷ b'^'
    ∷ b'&'
    ∷ b'*'
    ∷ b'('
    ∷ 0
    ∷ b':'
    ∷ 0
    ∷ b'+'
    ∷ 0
    ∷ 0
    ∷ (replicate 26 0 ++ (b'{' ∷ b'{' ∷ b'|' ∷ b'}' ∷ 0 ∷ 0 ∷ b'~' ∷ 0 ∷ []))

pub keyboard_scancode_to_keycode : ℕ → ℕ
unfolding scancodes_table
keyboard_scancode_to_keycode scancode =
    if ltb scancode 59 then get_or scancodes_table scancode 0 else 0

-- 'a' to 'z'
abbrev pub is_letter : ℕ → Bool
is_letter c = leb b'a' c && leb c b'z'

-- `shift_symbols_table[ascii - '\'']`
unfoldable pub shifted_symbol : ℕ → Option ℕ
shifted_symbol ascii = if ltb ascii 39 then none else get_elem? shift_symbols_table (ascii - 39)

-- The two conversions: a letter with shift or caps lock, and then any other key with shift; the
-- new `is_shift` stands beside the character.
unfoldable pub convert : ℕ → Keyboard → Option (ℕ × Bool)
unfolding shifted_symbol
convert ascii k =
    if (k.is_uppercase || k.is_shift) && is_letter ascii
    then some (ascii - 32, false)
    else if k.is_shift && not (is_letter ascii)
    then elim (shifted_symbol ascii) [ none ↦ none | some c ↦ some (c, false) ]
    else some (ascii, k.is_shift)

unfoldable pub count_key : ℕ → ℕ → ℕ
count_key ascii line_len =
    let start = if ascii == 10 then 1 else line_len in
    if not (ascii == 10) && not (ascii == 8) && not (ascii == 0) then start + 1 else start

-- The end of the handler: a backspace shortens the line, and the character is shown unless the line
-- is empty, and kept for `keyboard_getch`.
unfoldable pub deliver : ℕ → Bool → Keyboard → Stdio → Keyboard × Stdio
deliver ascii shift k io =
    let len = if ascii == 8 then k.line_len - 1 else k.line_len in
    (
      record k { curr_ch = ascii; is_shift = shift; line_len = len },
      if ltb 0 len then putc ascii io else io,
    )

pub keyboard_handler : ℕ → Keyboard → Stdio → Option (Keyboard × Stdio)
keyboard_handler scancode k io =
    let ascii = keyboard_scancode_to_keycode scancode in
    let k' = record k { line_len = count_key ascii k.line_len } in
    if ascii == caps_lock
    then some (record k { is_uppercase = not k.is_uppercase }, io)
    else if ascii == left_shift
    then some (record k { is_shift = true }, io)
    else elim (convert ascii k') [ none ↦ none | some (c, shift) ↦ some (deliver c shift k' io) ]

pub keyboard_getch : Keyboard → ℕ × Keyboard
keyboard_getch k = (k.curr_ch, record k { curr_ch = 0 })
