-- ===== src/Keyboard/Keys.antt =====
-- Letters, and taking a key.
use almorina_os.Prelude.{
  ℕ, ◌+◌, ◌-◌, ◌≤◌, ◌<◌, ◌≡◌, ◌≢◌, arith, true, false, ◌||◌, some, ◌==◌, if◌then◌else◌,
}
use almorina_os.Stdio.{Stdio, putc}
use almorina_os.Keyboard.{
  Keyboard, keyboard_scancode_to_keycode, is_letter, convert, count_key, deliver, keyboard_handler,
  caps_lock, left_shift,
}

convert-letter :
    (c : ℕ) (k : Keyboard)
    → is_letter c ≡ true
    → convert c k ≡ some (if k.is_uppercase || k.is_shift then c - 32 else c, false)
unfolding convert
convert-letter c k letter = ground arith

deliver-visible :
    (c : ℕ) (k : Keyboard) (io : Stdio)
    → c ≢ 8
    → 0 < k.line_len
    → deliver c false k io ≡ (record k { curr_ch = c; is_shift = false }, putc c io)
unfolding deliver
deliver-visible c k io h pos = ground arith

count_key-letter : (c n : ℕ) → 97 ≤ c → count_key c n ≡ n + 1
unfolding count_key
count_key-letter c n h = ground arith

-- A letter key is shown and kept for the reader as a capital letter if shift or caps lock is on,
-- and as it is otherwise; shift is off afterwards, caps lock stays, and the line is one longer.
keyboard_handler-letter :
    (scancode : ℕ) (k : Keyboard) (io : Stdio)
    → is_letter (keyboard_scancode_to_keycode scancode) ≡ true
    → let c = keyboard_scancode_to_keycode scancode in
      let typed = if k.is_uppercase || k.is_shift then c - 32 else c in
      keyboard_handler scancode k io
      ≡ some
          (record k { curr_ch = typed; is_shift = false; line_len = k.line_len + 1 }, putc typed io)
unfolding keyboard_handler
keyboard_handler-letter scancode k io letter =
    let c = keyboard_scancode_to_keycode scancode in
    let low : 97 ≤ c = ground arith in
    let caps : (c == caps_lock) ≡ false = ground arith in
    let shift : (c == left_shift) ≡ false = ground arith in
    let k' = record k { line_len = count_key c k.line_len } in
    let typed = if k.is_uppercase || k.is_shift then c - 32 else c in
    let shown =
      deliver-visible typed k' io (ground arith)
        (omega (arith, count_key-letter c k.line_len low)) in
    rw (caps, shift)
      (ground (arith, convert-letter c k' letter, shown, count_key-letter c k.line_len low))
