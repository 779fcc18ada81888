-- ===== src/Shell/Parse.antt =====
-- A line is cut into its arguments.
use almorina_os.Prelude.{
  ℕ, zero, suc, ◌+◌, ◌-◌, ◌*◌, ◌<◌, ◌^◌, ◌≡◌, ◌≢◌, inl, inr, false, some, List, [], ◌∷◌, refl, ◌∙◌,
  arith, length, ◌==◌, ==→eq, Bool-cases, if◌then◌else◌,
}
use almorina_os.Prelude.Store.{update}
use almorina_os.Prelude.Fault.{◌>>=◌}
use almorina_os.Heap.{Heap, malloc}
use almorina_os.Cstring.{Memory}
use almorina_os.Cstring.Bytes.{IsString, SameOutside, IsString-update}
use almorina_os.Cstring.Search.{occurrences}
use almorina_os.Shell.{Parsed, count_args, cut_args, shell_parse}

-- The words between the spaces of a line: the first, and the others.
abbrev pub words : List ℕ → List ℕ × List (List ℕ)
words [] = ([], [])
words (c ∷ s) =
    let rest = words s in if c == b' ' then ([], rest.0 ∷ rest.1) else (c ∷ rest.0, rest.1)

abbrev pub AreStrings : Memory → List ℕ → List (List ℕ) → Type 0
AreStrings m [] [] = Unit {0}
AreStrings m (p ∷ ps) (s ∷ ss) = IsString m p s × AreStrings m ps ss
AreStrings m _ _ = ⊥

cut_args-space :
    (s : List ℕ) (fuel left curr start : ℕ) (m : Memory)
    → 0 < left
    → m curr ≡ b' '
    → cut_args (suc fuel) left curr start m ≡ (
        cut_args fuel (left - 1) (curr + 1) (curr + 1) (update m curr 0) >>= λ r.
        some (start ∷ r.0, r.1))
unfolding cut_args
cut_args-space s fuel left curr start m some_left here =
    let more : (left == 0) ≡ false = ground arith in rw (more, here) refl

cut_args-other :
    (s : List ℕ) (fuel left curr start : ℕ) (m : Memory)
    → 0 < left
    → m curr ≢ 0
    → (m curr == b' ') ≡ false
    → cut_args (suc fuel) left curr start m ≡ cut_args fuel left (curr + 1) start m
unfolding cut_args
cut_args-other s fuel left curr start m some_left inside other =
    let more : (left == 0) ≡ false = ground arith in
    let inner : (m curr == 0) ≡ false = ground (arith, inside) in rw (more, inner, other) refl

-- From `curr` on; the text between `start` and `curr` is behind the loop already.
cut_args_lem :
    (s : List ℕ) (fuel left curr start : ℕ) (m : Memory)
    → length s < fuel
    → occurrences b' ' s < left
    → IsString m curr s
    → (rest : List ℕ) × (m' : Memory) × (cut_args fuel left curr start m ≡ some (start ∷ rest, m'))
      × IsString m' curr (words s).0
      × AreStrings m' rest (words s).1
      × SameOutside curr (length s + 1) m m'
      × (length rest ≡ occurrences b' ' s)
unfolding cut_args
cut_args_lem s zero left curr start m enough many is = absurd (omega arith)
cut_args_lem [] (suc fuel) left curr start m enough many is =
    ([], m, ground (arith, is), is, tt, (λ q _. refl), refl)
cut_args_lem (c ∷ s) (suc fuel) left curr start m enough many is = elim (Bool-cases (c == b' ')) [
  | inl space ↦
      let m1 = update m curr 0 in
      let (rest, m', runs, first, others, same, count) =
        cut_args_lem s fuel (left - 1) (curr + 1) (curr + 1) m1 (omega arith)
          (ground (arith, space))
          (IsString-update s m (curr + 1) curr 0 (inl (omega arith)) is.2) in
      (
        (curr + 1) ∷ rest,
        m',
        cut_args-space s fuel left curr start m (ground arith) (is.0 ∙ ==→eq _ _ space)
            ∙ rw runs refl,
        rw space (same curr (inl (omega arith)) ∙ ground arith),
        rw space (first, others),
        (λ q out. same q (ground arith) ∙ ground arith),
        rw space (ground (arith, count)),
      )
  | inr other ↦
      let (rest, m', runs, first, others, same, count) =
        cut_args_lem s fuel left (curr + 1) start m (omega arith) (rw other at many) is.2 in
      (
        rest,
        m',
        cut_args-other s fuel left curr start m (omega arith) (ground (arith, is)) (rw is.0 other)
            ∙ runs,
        rw other (same curr (inl (omega arith)) ∙ is.0, is.1, first),
        rw other others,
        (λ q out. same q (ground arith)),
        rw other count,
      )
]

count_args_lem :
    (s : List ℕ) (fuel curr argc : ℕ) (m : Memory)
    → length s < fuel
    → argc + length s < 2 ^ 32
    → IsString m curr s
    → count_args fuel curr argc m ≡ some (argc + occurrences b' ' s)
unfolding count_args
count_args_lem s zero curr argc m enough small is = absurd (omega arith)
count_args_lem [] (suc fuel) curr argc m enough small is = ground (arith, is)
count_args_lem (c ∷ s) (suc fuel) curr argc m enough small is =
    let later : (n : ℕ)
        → n + length s < 2 ^ 32
        → count_args fuel (curr + 1) n m ≡ some (n + occurrences b' ' s) =
      λ n h. count_args_lem s fuel (curr + 1) n m (omega arith) h is.2 in
    ground (arith, is, later argc, later (argc + 1))

-- With enough fuel, and when the heap answers, `shell_parse` cuts a line that an `int` can count
-- at its spaces: the arguments stand in memory as the words between them, in order, as many as it
-- returns, and nothing but the line is written.
pub shell_parse_lem :
    (s : List ℕ) (fuel line p : ℕ) (m : Memory) (h h' : Heap)
    → length s < fuel
    → length s + 1 < 2 ^ 31
    → IsString m line s
    → malloc fuel (8 * (1 + occurrences b' ' s)) h ≡ some (p, h')
    → (r : Parsed) × (shell_parse fuel line m h ≡ some r)
      × (r.argc ≡ length r.args)
      × (r.argv ≡ p)
      × AreStrings r.mem r.args ((words s).0 ∷ (words s).1)
      × SameOutside line (length s + 1) m r.mem
unfolding shell_parse
shell_parse_lem s fuel line p m h h' enough small is given =
    let (rest, m', runs, first, others, same, count) =
      cut_args_lem s fuel (1 + occurrences b' ' s) line line m enough (omega arith) is in
    (
      record { argc = 1 + occurrences b' ' s; argv = p; args = line ∷ rest; mem = m'; heap = h' },
      rw (count_args_lem s fuel line 1 m enough (omega arith) is, given, runs) refl,
      ground (arith, count),
      refl,
      (first, others),
      same,
    )
