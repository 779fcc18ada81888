-- ===== src/Keyboard/Straight.antt =====
-- A line that is typed without corrections.
use almorina_os.Prelude.{
  ℕ, ◌+◌, ◌<◌, ◌^◌, ◌≡◌, ◌≢◌, refl, ◌∙◌, arith, true, false, ◌&&◌, some, List, [], ◌∷◌, ◌++◌,
  length, All, ◌==◌,
}
use almorina_os.Prelude.Words.{u32, u64}
use almorina_os.Prelude.Store.{update}
use almorina_os.Cstring.{Memory}
use almorina_os.Cstring.Bytes.{BytesAt, SameOutside}
use almorina_os.Stdio.{backspace_char, newline_char}
use almorina_os.Fs.{int_to_u64}
use almorina_os.Keyboard.Line.{int_less, fgets_loop, fgets}
use almorina_os.Keyboard.Edited.{take_key-char}

-- A character that `fgets` stores and goes on.
abbrev pub IsTyped : ℕ → Type 0
IsTyped c = (c ≢ 0) × (c ≢ backspace_char) × (c ≢ newline_char)

fgets_loop-straight :
    (s left : List ℕ) (dest n i : ℕ) (m : Memory)
    → n < 2 ^ 31
    → dest + n < 2 ^ 64
    → i + length s < n
    → All IsTyped s
    → (m' : Memory) × (fgets_loop (s ++ newline_char ∷ left) dest n i m ≡ some (m', left))
      × BytesAt m' (dest + i) (s ++ newline_char ∷ [])
      × SameOutside (dest + i) (length s + 1) m m'
unfolding fgets_loop
fgets_loop-straight [] left dest n i m small fits room typed =
    let at : u64 (dest + int_to_u64 i) ≡ dest + i = ground (arith, small, fits, room) in
    let test : (int_less (u32 (i + 1)) n && false) ≡ false = ground arith in
    (
      update m (dest + i) newline_char,
      rw (test, at) refl,
      (ground arith, tt),
      λ q out. ground arith,
    )
fgets_loop-straight (c ∷ s) left dest n i m small fits room typed =
    let (key, char, line) = typed.0 in
    let m1 = update m (dest + i) c in
    let stored =
      take_key-char c dest n i m small fits (omega arith) (ground (arith, key))
        (ground (arith, char)) in
    let more : int_less (i + 1) n ≡ true = ground (arith, small, room) in
    let other : (c == newline_char) ≡ false = ground (arith, line) in
    let next : dest + (i + 1) ≡ dest + i + 1 = omega arith in
    let (m', runs, bytes, same) =
      fgets_loop-straight s left dest n (i + 1) m1 small fits (omega arith) typed.1 in
    (
      m',
      rw (stored, more, other) runs,
      (same (dest + i) (ground arith) ∙ ground arith, rw next at bytes),
      λ q out. same q (ground arith) ∙ ground arith,
    )

-- A line of characters and its newline, typed without corrections, is stored with the newline, and
-- nothing else is written.
pub fgets-straight :
    (first : ℕ) (s left : List ℕ) (dest n : ℕ) (m : Memory)
    → n < 2 ^ 31
    → dest + n < 2 ^ 64
    → length s < n
    → All IsTyped s
    → (m' : Memory) × (fgets (first ∷ s ++ newline_char ∷ left) dest n m ≡ some (m', left))
      × BytesAt m' dest (s ++ newline_char ∷ [])
      × SameOutside dest (length s + 1) m m'
unfolding fgets
fgets-straight first s left dest n m small fits room typed =
    let start : dest + 0 ≡ dest = omega arith in
    let (m', runs, bytes, same) =
      fgets_loop-straight s left dest n 0 m small fits (omega arith) typed in
    (m', runs, rw start at bytes, rw start at same)
