-- ===== src/Shell/Main/Typed.antt =====
-- From the typed line to the command that it names.
use mathlib.Core.Path.{subst}
use almorina_os.Prelude.{
  ℕ, zero, suc, ◌+◌, ◌*◌, ◌≤◌, ◌<◌, ◌^◌, ◌≡◌, ◌≢◌, inl, inr, refl, ap, ◌∙◌, arith, Bool, Bool-cases,
  true, false, not, ◌&&◌, some, List, [], ◌∷◌, length, All, some_inj, ltb, ◌==◌, if◌then◌else◌,
}
use almorina_os.Prelude.Store.{update}
use almorina_os.Cstring.{Memory}
use almorina_os.Cstring.Bytes.{BytesAt, IsString, IsString-same, SameOutside, Apart}
use almorina_os.Cstring.Search.{AreBytes, occurrences}
use almorina_os.Heap.{Heap, malloc}
use almorina_os.Stdio.{newline_char}
use almorina_os.Keyboard.Line.{fgets}
use almorina_os.Keyboard.Edited.{edit, typed, NeverBelow, StandsAt, Outcome, length-edit, fgets_lem}
use almorina_os.Shell.{Parsed, shell_parse}
use almorina_os.Shell.Parse.{words, AreStrings, shell_parse_lem}
use almorina_os.Shell.Execute.{ShellCommand, Executed, nothing, shell_callback, shell_execute}
use almorina_os.Shell.Execute.Dispatch.{IsTable, dispatch, execute-table}
use almorina_os.Shell.Main.{line_size, clear_newlines, first_word, read_command}

-- The line in order, from the stack of its characters.
abbrev pub upright : List ℕ → List ℕ → List ℕ
upright [] s = s
upright (c ∷ line) s = upright line (c ∷ s)

-- A character of a line: a byte, and neither a NUL nor a newline.
abbrev pub IsPlain : ℕ → Type 0
IsPlain c = (c ≢ 0) × (c ≢ newline_char) × (c < 256)

-- The names of the table stand apart from the `n` bytes at `p`.
abbrev pub TableApart : ℕ → ℕ → List ShellCommand → List (List ℕ × ℕ) → Type 0
TableApart p n (c ∷ commands) ((name, min_args) ∷ table) =
    Apart c.command (length name + 1) p n × TableApart p n commands table
TableApart p n _ _ = Unit {0}

IsTable-same :
    (table : List (List ℕ × ℕ)) (commands : List ShellCommand) (p n : ℕ) (m m' : Memory)
    → SameOutside p n m m'
    → TableApart p n commands table
    → IsTable m commands table
    → IsTable m' commands table
IsTable-same [] [] p n m m' same apart is = tt
IsTable-same [] (c ∷ commands) p n m m' same apart is = absurd is
IsTable-same (t ∷ table) [] p n m m' same apart is = absurd is
IsTable-same ((name, k) ∷ table) (c ∷ commands) p n m m' same (apart, others)
      ((is, small, least), rest) =
    (
      (IsString-same name m m' c.command p n same apart is, small, least),
      IsTable-same table commands p n m m' same others rest,
    )

-- The loop over the newlines ends at a NUL, and writes nothing behind it.
clear_newlines-ends :
    (k fuel i : ℕ) (m : Memory)
    → k < fuel
    → m (i + k) ≡ 0
    → (m' : Memory) × (clear_newlines fuel i m ≡ some m') × SameOutside i k m m'
unfolding clear_newlines
clear_newlines-ends k zero i m enough end = absurd (omega arith)
clear_newlines-ends zero (suc fuel) i m enough end =
    let here : (m i == 0) ≡ true = ground (arith, end) in (m, rw here refl, λ q out. refl)
clear_newlines-ends (suc k) (suc fuel) i m enough end = elim (Bool-cases (m i == 0)) [
  | inl nul ↦ (m, rw nul refl, λ q out. refl)
  | inr byte ↦
      let m1 = if m i == newline_char then update m i 0 else m in
      let next : i + 1 + k ≡ i + suc k = omega arith in
      let (m', runs, same) =
        clear_newlines-ends k fuel (i + 1) m1 (omega arith) (rw next (ground (arith, end))) in
      (m', rw byte runs, λ q out. same q (ground arith) ∙ ground arith)
]

-- On a line of plain characters and a newline, it puts the NUL behind the line.
clear_newlines-line :
    (s : List ℕ) (k fuel i : ℕ) (m : Memory)
    → length s < k
    → k < fuel
    → m (i + k) ≡ 0
    → All IsPlain s
    → BytesAt m i s
    → m (i + length s) ≡ newline_char
    → (m' : Memory) × (clear_newlines fuel i m ≡ some m') × IsString m' i s × SameOutside i k m m'
unfolding clear_newlines
clear_newlines-line s zero fuel i m few enough end plain bytes at = absurd (omega arith)
clear_newlines-line s (suc k) zero i m few enough end plain bytes at = absurd (omega arith)
clear_newlines-line [] (suc k) (suc fuel) i m few enough end plain bytes at =
    let next : i + 1 + k ≡ i + suc k = omega arith in
    let here : i + 0 ≡ i = omega arith in
    let newline : m i ≡ newline_char = rw here at at in
    let (m', runs, same) =
      clear_newlines-ends k fuel (i + 1) (update m i 0) (omega arith)
        (rw next (ground (arith, end))) in
    (
      m',
      rw newline runs,
      same i (ground arith) ∙ ground arith,
      λ q out. same q (ground arith) ∙ ground arith,
    )
clear_newlines-line (c ∷ s) (suc k) (suc fuel) i m few enough end plain bytes at =
    let next : i + 1 + k ≡ i + suc k = omega arith in
    let behind : i + 1 + length s ≡ i + suc (length s) = omega arith in
    let byte : (c == 0) ≡ false = ground (arith, plain) in
    let other : (c == newline_char) ≡ false = ground (arith, plain) in
    let (m', runs, is, same) =
      clear_newlines-line s k fuel (i + 1) m (omega arith) (omega arith) (rw next end) plain.1
        bytes.1 (rw behind at) in
    (
      m',
      rw (bytes.0, byte, other) runs,
      (same i (ground arith) ∙ bytes.0, plain.0.0, is),
      λ q out. same q (ground arith),
    )

upright-BytesAt :
    (line s : List ℕ) (m : Memory) (dest : ℕ)
    → StandsAt m dest line
    → BytesAt m (dest + length line) s
    → BytesAt m dest (upright line s)
upright-BytesAt [] s m dest stands bytes =
    let here : dest + 0 ≡ dest = omega arith in rw here at bytes
upright-BytesAt (c ∷ line) s m dest stands bytes =
    let next : dest + suc (length line) ≡ dest + length line + 1 = omega arith in
    upright-BytesAt line (c ∷ s) m dest stands.1 (stands.0, rw next at bytes)

length-upright : (line s : List ℕ) → length (upright line s) ≡ length line + length s
length-upright [] s = omega arith
length-upright (c ∷ line) s = omega (arith, length-upright line (c ∷ s))

-- No line is longer than the array.
typed_short :
    (keys : List ℕ) (n : ℕ) (line line' left : List ℕ)
    → length line < n
    → typed n line keys ≡ some (line', left)
    → length line' ≤ n
typed_short [] n line line' left room is = ground (arith, is)
typed_short (ch ∷ keys) n line line' left room is =
    elim (Bool-cases (ltb (length (edit ch line)) n && not (ch == newline_char))) [
      | inl more ↦
          typed_short keys n (edit ch line) line' left (ground (arith, more)) (rw more at is)
      | inr stop ↦
          let ends = ap (λ (r : List ℕ × List ℕ). length r.0) (some_inj (rw stop at is)) in
          omega (arith, ends, length-edit ch line, room)
    ]

-- The words of a line are no longer than it, and its characters are theirs.
words_short : (s : List ℕ) → length (words s).0 ≤ length s
words_short [] = omega arith
words_short (c ∷ s) = ground (arith, words_short s)

words-AreBytes : (s : List ℕ) → All IsPlain s → AreBytes (words s).0
words-AreBytes [] plain = tt
words-AreBytes (c ∷ s) plain = elim (Bool-cases (c == b' ')) [
  | inl space ↦ rw space tt
  | inr other ↦ rw other (plain.0.2, words-AreBytes s plain.1)
]

abbrev head_or_null : List ℕ → ℕ
head_or_null args = elim args [ [] ↦ 0 | a ∷ _ ↦ a ]

first_string :
    (args : List ℕ) (m : Memory) (word : List ℕ) (others : List (List ℕ))
    → AreStrings m args (word ∷ others)
    → (1 ≤ length args) × IsString m (head_or_null args) word
first_string [] m word others are = absurd are
first_string (a ∷ args) m word others are = (omega arith, are.0)

read_command-runs :
    (fuel : ℕ) (commands : List ShellCommand) (keys left : List ℕ) (line : ℕ) (m m1 m2 : Memory)
    (h : Heap) (r : Parsed) (e : Executed)
    → fgets keys line line_size m ≡ some (m1, left)
    → clear_newlines fuel line m1 ≡ some m2
    → shell_parse fuel line m2 h ≡ some r
    → shell_execute fuel commands (first_word r) r.argc r.mem ≡ some e
    → read_command fuel commands keys line m h ≡ some (e, r, left)
unfolding read_command
read_command-runs fuel commands keys left line m m1 m2 h r e types clears parses executes =
    rw (types, clears, parses, executes) refl

-- The same for any table.
read_command-table :
    (table : List (List ℕ × ℕ)) (first : ℕ) (keys left line_keys : List ℕ) (fuel line p : ℕ)
    (commands : List ShellCommand) (m : Memory) (h h' : Heap)
    → line_size < fuel
    → line + line_size < 2 ^ 64
    → NeverBelow [] keys
    → typed line_size [] keys ≡ some (newline_char ∷ line_keys, left)
    → All IsPlain (upright line_keys [])
    → m (line + line_size) ≡ 0
    → IsTable m commands table
    → TableApart line line_size commands table
    → malloc fuel (8 * (1 + occurrences b' ' (upright line_keys []))) h ≡ some (p, h')
    → let (word, others) = words (upright line_keys []) in
      (r : Parsed) × (read_command fuel commands (first ∷ keys) line m h
        ≡ some (dispatch table 0 word r.argc, r, left))
      × (r.argc ≡ length r.args)
      × AreStrings r.mem r.args (word ∷ others)
read_command-table table first keys left line_keys fuel line p commands m h h' enough fits above
      ends plain end is apart given =
    let s = upright line_keys [] in
    let long : length s ≡ length line_keys = omega (arith, length-upright line_keys []) in
    let short = typed_short keys line_size [] (newline_char ∷ line_keys) left (omega arith) ends in
    let (m1, types, stands, same1) =
      subst (λ o. Outcome line line_size m o (fgets (first ∷ keys) line line_size m)) ends
        (fgets_lem first keys line line_size m (omega arith) (omega arith) fits above) in
    let newline : m1 (line + length s) ≡ newline_char = ap (λ k. m1 (line + k)) long ∙ stands.0 in
    let (m2, clears, is2, same2) =
      clear_newlines-line s line_size fuel line m1 (omega (arith, long, short)) enough
        (same1 (line + line_size) (inr (omega arith)) ∙ end) plain
        (upright-BytesAt line_keys [] m1 line stands.1 tt) newline in
    let (r, parses, count, _, are, same3) =
      shell_parse_lem s fuel line p m2 h h' (omega (arith, long, short, enough))
        (omega (arith, long, short)) is2 given in
    let same : SameOutside line line_size m r.mem =
      λ q out. same3 q (ground (arith, long, short, out)) ∙ same2 q out ∙ same1 q out in
    let (some_args, word_is) = first_string r.args r.mem (words s).0 (words s).1 are in
    let executes =
      execute-table table commands (words s).0 fuel (first_word r) r.argc r.mem
        (IsTable-same table commands line line_size m r.mem same apart is)
        (omega (arith, words_short s, long, short, enough)) (words-AreBytes s plain) word_is in
    let argc : ltb r.argc 1 ≡ false = ground (arith, count, some_args) in
    let decides : shell_execute fuel commands (first_word r) r.argc r.mem
        ≡ some (dispatch table 0 (words s).0 r.argc) =
      executes
      ∙ ap (λ (b : Bool). some (if b then nothing else dispatch table 0 (words s).0 r.argc)) argc in
    (
      r,
      read_command-runs fuel commands (first ∷ keys) left line m m1 m2 h r
          (dispatch table 0 (words s).0 r.argc) types clears parses decides,
      count,
      are,
    )

-- A line that is typed, with any corrections but a backspace on the empty line, has its command
-- called: with enough fuel, when the heap answers and a NUL stands behind the array, the words of the
-- line stand in memory, the first of them decides among the entries of `shell_callback`, and the
-- keys behind the newline are left. The line's characters are bytes, and the names of the table
-- stand apart from it.
pub read_command_lem :
    (first : ℕ) (keys left line_keys : List ℕ) (fuel line p : ℕ) (commands : List ShellCommand)
    (m : Memory) (h h' : Heap)
    → line_size < fuel
    → line + line_size < 2 ^ 64
    → NeverBelow [] keys
    → typed line_size [] keys ≡ some (newline_char ∷ line_keys, left)
    → All IsPlain (upright line_keys [])
    → m (line + line_size) ≡ 0
    → IsTable m commands shell_callback
    → TableApart line line_size commands shell_callback
    → malloc fuel (8 * (1 + occurrences b' ' (upright line_keys []))) h ≡ some (p, h')
    → let (word, others) = words (upright line_keys []) in
      (r : Parsed) × (read_command fuel commands (first ∷ keys) line m h
        ≡ some (dispatch shell_callback 0 word r.argc, r, left))
      × (r.argc ≡ length r.args)
      × AreStrings r.mem r.args (word ∷ others)
read_command_lem = read_command-table shell_callback
