-- ===== src/Shell/Evaluate/Written.antt =====
-- From the text of an expression to its value.
use mathlib.Core.Path.{subst}
use almorina_os.Prelude.{
  ℕ, zero, suc, ◌+◌, ◌-◌, ◌≤◌, ◌<◌, ◌^◌, ◌≡◌, inl, refl, ap, sym, ◌∙◌, arith, true, false, Option,
  none, some, List, [], ◌∷◌, ◌++◌, length, length-append, map, All, ◌==◌,
}
use almorina_os.Prelude.Store.{update}
use almorina_os.Cstring.{Memory, memset, strcpy, atoi}
use almorina_os.Cstring.Bytes.{
  BytesAt, IsString, IsString-tail, IsString-update, IsString-same, Apart,
}
use almorina_os.Cstring.Fill.{memset_lem}
use almorina_os.Cstring.Copy.{strcpy_lem}
use almorina_os.Cstring.Number.{IsDigit, value, atoi-value}
use almorina_os.Shell.{isop, strip_spaces}
use almorina_os.Shell.Spaces.{without_spaces, strip_spaces_lem}
use almorina_os.Shell.Evaluate.{Floats, Tail, reduce, parse_exp, evaluate_copy, shell_eval_math_exp}
use almorina_os.Shell.Evaluate.Precedence.{
  HasOperators, IsOperator, sum_or_product_of, school, reduce-school,
}

-- The operators behind a number, each with the digits of the number behind it.
abbrev pub Terms : Type 0
Terms = List (ℕ × List ℕ)

-- Digits of a number that an `int` holds; no digits are 0.
abbrev pub IsNumeral : List ℕ → Type 0
IsNumeral d = All IsDigit d × (value 0 d < 2 ^ 31)

abbrev pub AreTerms : Terms → Type 0
AreTerms = All (λ o. IsOperator o.0 × IsNumeral o.1)

-- How the operators and numbers are written.
abbrev pub written : Terms → List ℕ
written [] = []
written ((op, d) ∷ rest) = op ∷ (d ++ written rest)

-- The bytes in front of the rest of a string.
BytesAt-front : (d s : List ℕ) (m : Memory) (p : ℕ) → IsString m p (d ++ s) → BytesAt m p d
BytesAt-front [] s m p is = tt
BytesAt-front (c ∷ d) s m p is = (is.0, BytesAt-front d s m (p + 1) is.2)

string_alone : (d : List ℕ) (m : Memory) (p : ℕ) → IsString m p (d ++ []) → IsString m p d
string_alone [] m p is = is
string_alone (c ∷ d) m p is = (is.0, is.1, string_alone d m (p + 1) is.2)

-- A NUL cuts a string.
IsString-cut :
    (d s : List ℕ) (m : Memory) (p : ℕ)
    → IsString m p (d ++ s)
    → IsString (update m (p + length d) 0) p d
IsString-cut [] s m p is = ground arith
IsString-cut (c ∷ d) s m p is =
    let next : p + suc (length d) ≡ p + 1 + length d = omega arith in
    subst (λ q. IsString (update m q 0) p (c ∷ d)) (sym next)
      (ground (arith, is), is.1, IsString-cut d s m (p + 1) is.2)

digit_plain : (c : ℕ) → IsDigit c → ((c == 0) ≡ false) × (isop c ≡ false)
unfolding isop
digit_plain c digit = (ground (arith, digit), ground (arith, digit))

operator_plain : (o : ℕ) → IsOperator o → ((o == 0) ≡ false) × (isop o ≡ true)
unfolding isop
operator_plain o op = (ground (arith, op), ground (arith, op))

module _ (floats : Floats) where
  abbrev pub numbers : Terms → Tail
  numbers = map (λ o. (o.0, floats.of_int (value 0 o.1)))

  parse_exp-digits :
      (d : List ℕ) (fuel rounds i p : ℕ) (m : Memory)
      → All IsDigit d
      → BytesAt m i d
      → parse_exp floats fuel (length d + rounds) i p m
        ≡ parse_exp floats fuel rounds (i + length d) p m
  unfolding parse_exp
  parse_exp-digits [] fuel rounds i p m digits at =
      let here : i + 0 ≡ i = omega arith in
      let none_more : 0 + rounds ≡ rounds = omega arith in rw (here, none_more) refl
  parse_exp-digits (c ∷ d) fuel rounds i p m digits at =
      let (byte, plain) = digit_plain c digits.0 in
      let more : suc (length d) + rounds ≡ suc (length d + rounds) = omega arith in
      let next : i + suc (length d) ≡ i + 1 + length d = omega arith in
      rw (more, next)
        (rw (at.0, byte, plain) (parse_exp-digits d fuel rounds (i + 1) p m digits.1 at.1))

  parse_exp-end :
      (fuel rounds i p n : ℕ) (m : Memory)
      → m i ≡ 0
      → atoi fuel p m ≡ some n
      → parse_exp floats fuel rounds i p m ≡ some (floats.of_int n, [], m)
  unfolding parse_exp
  parse_exp-end fuel zero i p n m end reads = rw reads refl
  parse_exp-end fuel (suc rounds) i p n m end reads = rw (end, reads) refl

  parse_exp-operator :
      (fuel rounds i p n o a : ℕ) (rest : Tail) (m m' : Memory)
      → m i ≡ o
      → IsOperator o
      → atoi fuel p (update m i 0) ≡ some n
      → parse_exp floats fuel rounds (i + 1) (i + 1) (update m i 0) ≡ some (a, rest, m')
      → parse_exp floats fuel (suc rounds) i p m ≡ some (floats.of_int n, (o, a) ∷ rest, m')
  unfolding parse_exp
  parse_exp-operator fuel rounds i p n o a rest m m' here op reads parses =
      let (byte, is_op) = operator_plain o op in rw (reads, parses) (rw (here, byte, is_op) refl)

  parse_exp_lem :
      (rest : Terms) (d : List ℕ) (fuel rounds p : ℕ) (m : Memory)
      → IsNumeral d
      → AreTerms rest
      → IsString m p (d ++ written rest)
      → length (d ++ written rest) ≤ rounds
      → length (d ++ written rest) < fuel
      → (m' : Memory) × (parse_exp floats fuel rounds p p m
          ≡ some (floats.of_int (value 0 d), numbers rest, m'))
  parse_exp_lem [] d fuel rounds p m numeral terms is few enough =
      let long = length-append d (written []) in
      let all : rounds ≡ length d + (rounds - length d) = omega (arith, long, few) in
      let at = BytesAt-front d (written []) m p is in
      let end : m (p + length d) ≡ 0 = IsString-tail d [] m p is in
      let alone : IsString m p d = string_alone d m p is in
      let reads = atoi-value d fuel p m (omega (arith, long, enough)) numeral.0 numeral.1 alone in
      (
        m,
        ap (λ r. parse_exp floats fuel r p p m) all
            ∙ parse_exp-digits d fuel (rounds - length d) p p m numeral.0 at
            ∙ parse_exp-end fuel (rounds - length d) (p + length d) p (value 0 d) m end reads,
      )
  parse_exp_lem ((o, t) ∷ rest) d fuel rounds p m numeral ((op, numeral'), terms) is few enough =
      let tail = t ++ written rest in
      let long = length-append d (o ∷ tail) in
      let left = rounds - length d - 1 in
      let all : rounds ≡ length d + suc left = omega (arith, long, few) in
      let i = p + length d in
      let m1 = update m i 0 in
      let behind = IsString-tail d (o ∷ tail) m p is in
      let at = BytesAt-front d (o ∷ tail) m p is in
      let cut = IsString-cut d (o ∷ tail) m p is in
      let reads = atoi-value d fuel p m1 (omega (arith, long, enough)) numeral.0 numeral.1 cut in
      let rest_is = IsString-update tail m (i + 1) i 0 (inl (omega arith)) behind.2 in
      let (m', parses) =
        parse_exp_lem rest t fuel left (i + 1) m1 numeral' terms rest_is (omega (arith, long, few))
          (omega (arith, long, enough)) in
      (
        m',
        ap (λ r. parse_exp floats fuel r p p m) all
            ∙ parse_exp-digits d fuel (suc left) p p m numeral.0 at
            ∙ parse_exp-operator fuel left i p (value 0 d) o (floats.of_int (value 0 t))
                (numbers rest) m m' behind.0 op reads parses,
      )

  numbers-HasOperators : (rest : Terms) → AreTerms rest → HasOperators (numbers rest)
  numbers-HasOperators [] terms = tt
  numbers-HasOperators (o ∷ rest) terms =
      (sum_or_product_of o.0 terms.0.0, numbers-HasOperators rest terms.1)

  -- The value that is returned: 0 for a division by zero.
  abbrev pub returned : Option ℕ → ℕ
  returned none = floats.of_int 0
  returned (some n) = n

  evaluate_copy-runs :
      (fuel exp rounds expression a : ℕ) (rest : Tail) (m m1 m2 m3 : Memory) (o : Option ℕ)
      → strcpy fuel exp expression m ≡ some m1
      → strip_spaces fuel exp m1 ≡ some m2
      → parse_exp floats fuel rounds exp exp m2 ≡ some (a, rest, m3)
      → reduce floats (length rest + 1) a rest ≡ o
      → evaluate_copy floats fuel exp rounds expression m ≡ some (returned o, m3)
  unfolding evaluate_copy
  evaluate_copy-runs fuel exp rounds expression a rest m m1 m2 m3 o copies strips parses value_is =
      rw (copies, strips, parses) (ap (λ v. some (returned v, m3)) value_is)

without_spaces_short : (s : List ℕ) → length (without_spaces s) ≤ length s
without_spaces_short [] = omega arith
without_spaces_short (c ∷ s) = ground (arith, without_spaces_short s)

-- With enough fuel, `shell_eval_math_exp` of a text of at most 99 characters that is, but for its
-- spaces, numbers with operators between them, returns its value in school order: products before
-- sums, and each from left to right; or 0 if that order divides by zero. Each number is below 2^31,
-- and one that is left out counts as 0. The text and the array must not overlap.
pub shell_eval_math_exp_lem :
    (floats : Floats) (text d : List ℕ) (rest : Terms) (fuel exp expression : ℕ) (m : Memory)
    → length text < 100
    → length text < fuel
    → without_spaces text ≡ d ++ written rest
    → IsNumeral d
    → AreTerms rest
    → IsString m expression text
    → Apart exp 100 expression (length text + 1)
    → (m' : Memory) × (shell_eval_math_exp floats fuel exp expression m
        ≡ some (
          returned floats (school floats none (floats.of_int (value 0 d)) (numbers floats rest)),
          m',
        ))
unfolding shell_eval_math_exp
shell_eval_math_exp_lem floats text d rest fuel exp expression m few enough spelled numeral terms is
      apart =
    let cleared = memset exp 0 100 m in
    let is0 =
      IsString-same text m cleared expression exp 100 (memset_lem exp 0 100 m).1
        (ground (arith, apart)) is in
    let (m1, copies, is1, _) =
      strcpy_lem text fuel exp expression cleared enough (ground (arith, apart, few)) is0 in
    let (m2, strips, is2, _) = strip_spaces_lem text fuel exp m1 enough is1 in
    let is3 = subst (IsString m2 exp) spelled is2 in
    let short = without_spaces_short text in
    let long : length (without_spaces text) ≡ length (d ++ written rest) = ap length spelled in
    let (m3, parses) =
      parse_exp_lem floats rest d fuel 100 exp m2 numeral terms is3
        (omega (arith, long, short, few)) (omega (arith, long, short, enough)) in
    (
      m3,
      evaluate_copy-runs floats fuel exp 100 expression (floats.of_int (value 0 d))
          (numbers floats rest) cleared m1 m2 m3
          (school floats none (floats.of_int (value 0 d)) (numbers floats rest)) copies strips
          parses
          (reduce-school floats (floats.of_int (value 0 d)) (numbers floats rest)
            (numbers-HasOperators floats rest terms)),
    )
