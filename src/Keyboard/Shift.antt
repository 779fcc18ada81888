-- ===== src/Keyboard/Shift.antt =====
-- Shift, and the table of shifted symbols.
use almorina_os.Prelude.{
  ℕ, zero, suc, ◌-◌, ◌≤◌, ◌<◌, ◌≡◌, ◌≢◌, ◌⊎◌, ◌↔◌, refl, arith, true, false, none, ◌==◌, ltb,
  Bool-cases, inl, inr, List, [], ◌∷◌, length, get_elem?,
}
use almorina_os.Stdio.{Stdio}
use almorina_os.Keyboard.{
  Keyboard, keyboard_scancode_to_keycode, is_letter, convert, shifted_symbol, shift_symbols_table,
  keyboard_handler, caps_lock, left_shift, count_key,
}

get_elem?-none {ℓ} : {A : Type ℓ} (xs : List A) (i : ℕ) → (get_elem? xs i ≡ none) ↔ (length xs ≤ i)
get_elem?-none [] i = (λ h. omega arith, λ h. refl)
get_elem?-none (x ∷ xs) zero = (λ h. cc, λ h. absurd (omega arith))
get_elem?-none (x ∷ xs) (suc i) =
    (λ h. omega (arith, (get_elem?-none xs i).0 h), λ h. (get_elem?-none xs i).1 (omega arith))

length-shift_symbols_table : length shift_symbols_table ≡ 59
unfolding shift_symbols_table
length-shift_symbols_table = refl

-- The symbol of a key lies in the table exactly from '\'' to 'a'.
shifted_symbol-none : (c : ℕ) → (shifted_symbol c ≡ none) ↔ ((c < 39) ⊎ (98 ≤ c))
unfolding shifted_symbol
shifted_symbol-none c =
    let table = get_elem?-none shift_symbols_table (c - 39) in
    (
      λ h. elim (Bool-cases (ltb c 39)) [
        | inl low ↦ inl (ground arith)
        | inr high ↦ inr (ground (arith, length-shift_symbols_table, table.0 (rw high at h)))
      ],
      λ out. elim out [
        | inl low ↦ ground arith
        | inr high ↦
            let test : ltb c 39 ≡ false = ground arith in
            rw test (table.1 (omega (arith, length-shift_symbols_table)))
      ],
    )

-- The keys that shift has no place for in the table.
abbrev pub Unshiftable : ℕ → Type 0
Unshiftable c = (c ≢ caps_lock) × (c ≢ left_shift) × (is_letter c ≡ false) × ((c < 39) ⊎ (98 ≤ c))

convert-none :
    (c : ℕ) (k : Keyboard)
    → (convert c k ≡ none)
      ↔ ((k.is_shift ≡ true) × (is_letter c ≡ false) × (shifted_symbol c ≡ none))
unfolding convert
convert-none c k = (λ h. ground arith, λ h. ground arith)

-- The handler reads outside the table of shifted symbols exactly if shift is on, and the key is
-- neither a modifier nor a letter nor one whose character lies from '\'' to 'a'.
keyboard_handler-none :
    (scancode : ℕ) (k : Keyboard) (io : Stdio)
    → (keyboard_handler scancode k io ≡ none)
      ↔ ((k.is_shift ≡ true) × Unshiftable (keyboard_scancode_to_keycode scancode))
unfolding keyboard_handler
keyboard_handler-none scancode k io =
    let c = keyboard_scancode_to_keycode scancode in
    let k' = record k { line_len = count_key c k.line_len } in
    let fault = convert-none c k' in
    let outside = shifted_symbol-none c in
    (
      λ h. elim (Bool-cases (c == caps_lock)) [
        | inl caps ↦ ground (arith, caps, h)
        | inr no_caps ↦ elim (Bool-cases (c == left_shift)) [
          | inl shift ↦ ground (arith, no_caps, shift, h)
          | inr no_shift ↦
              let found = fault.0 (ground (arith, no_caps, no_shift, h)) in
              (found.0, (ground arith, ground arith, found.1, outside.0 found.2))
        ]
      ],
      λ (on, (no_caps, no_shift, no_letter, out)).
          let first : (c == caps_lock) ≡ false = ground arith in
          let second : (c == left_shift) ≡ false = ground arith in
          ground (arith, first, second, fault.1 (on, no_letter, outside.1 out)),
    )

keycode-release : (release : ℕ) → 59 ≤ release → keyboard_scancode_to_keycode release ≡ 0
unfolding keyboard_scancode_to_keycode
keycode-release release h = let test : ltb release 59 ≡ false = ground arith in rw test

-- After shift, the handler reads outside the table on the release of any key.
pub shift_then_release :
    (release : ℕ) (k : Keyboard) (io : Stdio)
    → 59 ≤ release
    → k.is_shift ≡ true
    → keyboard_handler release k io ≡ none
shift_then_release release k io h on =
    let none_there : keyboard_scancode_to_keycode release ≡ 0 = keycode-release release h in
    (keyboard_handler-none release k io).1 (on, rw none_there (ground arith))
