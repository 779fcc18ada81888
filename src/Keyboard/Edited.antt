-- ===== src/Keyboard/Edited.antt =====
-- The line that is typed, as a stack of characters, and that `fgets` leaves it in memory.
use mathlib.Core.Path.{subst}
use almorina_os.Prelude.{
  ℕ, ◌+◌, ◌-◌, ◌^◌, ◌≤◌, ◌<◌, ◌≡◌, ◌≢◌, ◌⊎◌, inl, inr, refl, sym, ◌∙◌, arith, Bool-cases, ==→eq,
  true, false, not, ◌&&◌, Option, none, some, List, [], ◌∷◌, length, ltb, ◌==◌, if◌then◌else◌,
}
use almorina_os.Prelude.Words.{u32, u64}
use almorina_os.Prelude.Store.{update}
use almorina_os.Cstring.{Memory}
use almorina_os.Cstring.Bytes.{SameOutside}
use almorina_os.Stdio.{backspace_char, newline_char}
use almorina_os.Fs.{int_to_u64}
use almorina_os.Keyboard.Line.{int_less, take_key, fgets_loop, fgets}

-- A line editor: the last character lies on top.
abbrev pub edit : ℕ → List ℕ → List ℕ
edit ch line =
    if ch == 0
    then line
    else if ch == backspace_char
    then elim line [ [] ↦ [] | _ ∷ rest ↦ rest ]
    else ch ∷ line

-- The line when it is full or a newline is typed, and the keys that are left.
abbrev pub typed : ℕ → List ℕ → List ℕ → Option (List ℕ × List ℕ)
typed n line [] = none
typed n line (ch ∷ keys) =
    let rest = typed n (edit ch line) keys in
    if ltb (length (edit ch line)) n && not (ch == newline_char)
    then rest
    else some (edit ch line, keys)

-- No backspace is typed on an empty line.
abbrev pub NeverBelow : List ℕ → List ℕ → Type 0
NeverBelow line [] = Unit {0}
NeverBelow line (ch ∷ keys) =
    ((ch ≢ backspace_char) ⊎ (0 < length line)) × NeverBelow (edit ch line) keys

-- The line stands at `dest`.
abbrev pub StandsAt : Memory → ℕ → List ℕ → Type 0
StandsAt m dest [] = Unit {0}
StandsAt m dest (c ∷ line) = (m (dest + length line) ≡ c) × StandsAt m dest line

-- What `fgets` returns, of what the line editor does.
abbrev pub Outcome : ℕ → ℕ → Memory → Option (List ℕ × List ℕ) → Option (Memory × List ℕ) → Type 0
Outcome dest n m none r = r ≡ none
Outcome dest n m (some (line, keys)) r =
    (m' : Memory) × (r ≡ some (m', keys)) × StandsAt m' dest line × SameOutside dest n m m'

StandsAt-update :
    (line : List ℕ) (m : Memory) (dest q c : ℕ)
    → dest + length line ≤ q
    → StandsAt m dest line
    → StandsAt (update m q c) dest line
StandsAt-update [] m dest q c behind stands = tt
StandsAt-update (x ∷ line) m dest q c behind stands =
    (ground (arith, stands), StandsAt-update line m dest q c (omega arith) stands.1)

-- A backspace takes the last character off the line.
deleted :
    (line : List ℕ) (m : Memory) (dest : ℕ)
    → length line < 2 ^ 31
    → 0 < length line
    → StandsAt m dest line
    → (u32 (length line + 2 ^ 32 - 1) ≡ length (edit backspace_char line))
      × StandsAt m dest (edit backspace_char line)
deleted [] m dest short some_char stands = absurd (omega arith)
deleted (c ∷ line) m dest short some_char stands = (omega arith, stands.1)

typed_before : {ch n : ℕ} → (ch == backspace_char) ≡ true → (ch ≢ backspace_char) ⊎ (0 < n) → 0 < n
typed_before back (inl other) = absurd (other (==→eq _ _ back))
typed_before back (inr some_char) = some_char

pub take_key-char :
    (ch dest n i : ℕ) (m : Memory)
    → n < 2 ^ 31
    → dest + n < 2 ^ 64
    → i < n
    → (ch == 0) ≡ false
    → (ch == backspace_char) ≡ false
    → take_key ch dest i m ≡ (i + 1, update m (dest + i) ch)
unfolding take_key
take_key-char ch dest n i m small fits room key char =
    let at : u64 (dest + int_to_u64 i) ≡ dest + i = ground (arith, small, fits, room) in
    let next : u32 (i + 1) ≡ i + 1 = omega (arith, small, room) in rw (key, char, at, next) refl

edit-char :
    (ch : ℕ) (line : List ℕ)
    → (ch == 0) ≡ false
    → (ch == backspace_char) ≡ false
    → edit ch line ≡ ch ∷ line
edit-char ch line key char = rw (key, char) refl

-- One key, on a line with room.
take_key-edit :
    (ch dest n : ℕ) (line : List ℕ) (m : Memory)
    → n < 2 ^ 31
    → dest + n < 2 ^ 64
    → length line < n
    → (ch ≢ backspace_char) ⊎ (0 < length line)
    → StandsAt m dest line
    → let (i, m') = take_key ch dest (length line) m in
      (i ≡ length (edit ch line)) × StandsAt m' dest (edit ch line) × SameOutside dest n m m'
unfolding take_key
take_key-edit ch dest n line m small fits room above stands = elim (Bool-cases (ch == 0)) [
  | inl no_key ↦ rw no_key (refl, stands, λ q out. refl)
  | inr key ↦ elim (Bool-cases (ch == backspace_char)) [
    | inl back ↦
        rw (key, back)
          (let (shorter, stands') =
              deleted line m dest (omega (arith, small, room)) (typed_before back above) stands in
            (shorter, stands', λ q out. refl))
    | inr char ↦
        let m' = update m (dest + length line) ch in
        subst
          (λ (r : ℕ × Memory).
            (r.0 ≡ length (edit ch line))
            × StandsAt r.1 dest (edit ch line)
            × SameOutside dest n m r.1)
          (sym (take_key-char ch dest n (length line) m small fits room key char))
          (subst (λ l. (length line + 1 ≡ length l) × StandsAt m' dest l × SameOutside dest n m m')
            (sym (edit-char ch line key char))
            (
              omega arith,
              (
                ground arith,
                StandsAt-update line m dest (dest + length line) ch (omega arith) stands,
              ),
              λ q out. ground (arith, room, out),
            ))
  ]
]

pub length-edit : (ch : ℕ) (line : List ℕ) → length (edit ch line) ≤ length line + 1
length-edit ch [] = ground arith
length-edit ch (c ∷ line) = ground arith

Outcome-after :
    (dest n : ℕ) (m m' : Memory) (o : Option (List ℕ × List ℕ)) (r : Option (Memory × List ℕ))
    → SameOutside dest n m m'
    → Outcome dest n m' o r
    → Outcome dest n m o r
Outcome-after dest n m m' none r same outcome = outcome
Outcome-after dest n m m' (some (line, keys)) r same (t, is, stands, same') =
    (t, is, stands, λ q out. same' q out ∙ same q out)

-- The loop, on a line with room.
fgets_loop-typed :
    (keys : List ℕ) (dest n : ℕ) (line : List ℕ) (m : Memory)
    → n < 2 ^ 31
    → dest + n < 2 ^ 64
    → length line < n
    → NeverBelow line keys
    → StandsAt m dest line
    → Outcome dest n m (typed n line keys) (fgets_loop keys dest n (length line) m)
unfolding fgets_loop
fgets_loop-typed [] dest n line m small fits room above stands = refl
fgets_loop-typed (ch ∷ keys) dest n line m small fits room above stands =
    let (index, stands', same) = take_key-edit ch dest n line m small fits room above.0 stands in
    let (i, m') = take_key ch dest (length line) m in
    let after = edit ch line in
    let short = length-edit ch line in
    let test : int_less i n ≡ ltb (length after) n = ground (arith, index, small, room, short) in
    elim (Bool-cases (ltb (length after) n && not (ch == newline_char))) [
      | inl more ↦
          let rest =
            fgets_loop-typed keys dest n after m' small fits (ground (arith, more)) above.1
              stands' in
          let next : Outcome dest n m' (typed n after keys) (fgets_loop keys dest n i m') =
            subst (λ j. Outcome dest n m' (typed n after keys) (fgets_loop keys dest n j m'))
              (sym index) rest in
          rw (test, more)
            (Outcome-after dest n m m' (typed n after keys) (fgets_loop keys dest n i m') same next)
      | inr stop ↦ rw (test, stop) (m', refl, stands', same)
    ]

-- While no backspace is typed on an empty line, `fgets` implements a line editor, but for the first
-- key, which is lost: it waits for more exactly when the editor does, and otherwise leaves the
-- editor's line in memory, from `dest` on, reads no further key, and changes nothing outside the `n`
-- bytes. The line may fill them, and no NUL is written behind it.
pub fgets_lem :
    (first : ℕ) (keys : List ℕ) (dest n : ℕ) (m : Memory)
    → 1 ≤ n
    → n < 2 ^ 31
    → dest + n < 2 ^ 64
    → NeverBelow [] keys
    → Outcome dest n m (typed n [] keys) (fgets (first ∷ keys) dest n m)
unfolding fgets
fgets_lem first keys dest n m room small fits above =
    fgets_loop-typed keys dest n [] m small fits room above tt

take_key-in_front :
    (c dest : ℕ) (m : Memory)
    → c ≢ 0
    → c ≢ backspace_char
    → 1 ≤ dest
    → dest < 2 ^ 64
    → take_key c dest (2 ^ 32 - 1) m ≡ (0, update m (dest - 1) c)
unfolding take_key
take_key-in_front c dest m key char some_dest fits =
    let at : u64 (dest + int_to_u64 (2 ^ 32 - 1)) ≡ dest - 1 = omega (arith, some_dest, fits) in
    let is_key : (c == 0) ≡ false = ground (arith, key) in
    let is_char : (c == backspace_char) ≡ false = ground (arith, char) in
    rw (is_key, is_char, at) refl

-- A backspace on the empty line moves `fgets` in front of the buffer: the next character is written
-- to the byte before it.
pub fgets-backspace :
    (first c dest n : ℕ) (m : Memory)
    → c ≢ 0
    → c ≢ backspace_char
    → c ≢ newline_char
    → 1 ≤ dest
    → dest < 2 ^ 64
    → 2 ≤ n
    → n < 2 ^ 31
    → (m' : Memory) × (fgets (first ∷ backspace_char ∷ c ∷ newline_char ∷ []) dest n m
        ≡ some (m', []))
      × (m' (dest - 1) ≡ c)
unfolding fgets take_key
fgets-backspace first c dest n m key char line some_dest fits room small =
    let in_front : int_less (2 ^ 32 - 1) n ≡ true = ground (arith, small, room) in
    let at_start : int_less 0 n ≡ true = ground (arith, small, room) in
    let behind : int_less 1 n ≡ true = ground (arith, small, room) in
    let other : (c == newline_char) ≡ false = ground (arith, line) in
    rw (in_front, take_key-in_front c dest m key char some_dest fits, at_start, other, behind)
      (
        update (update m (dest - 1) c) (u64 (dest + 0)) newline_char,
        refl,
        ground (arith, some_dest, fits),
      )
