-- ===== src/Stdio/Decimal.antt =====
-- `puts` and `putd`: what is printed, as a list of characters.
use almorina_os.Prelude.{
  ℕ, zero, suc, ◌+◌, ◌-◌, ◌*◌, ◌/◌, ◌≤◌, ◌<◌, ◌^◌, ◌≡◌, refl, sym, ap, ◌∙◌, arith, List, [], ◌∷◌,
  ◌++◌, some, length, length-append, All, All-append, Bool-cases, ltb, true, false, ◌&&◌, inl, inr,
}
use almorina_os.Prelude.Words.{u8}
use almorina_os.Cstring.{Memory, atoi}
use almorina_os.Cstring.Bytes.{IsString}
use almorina_os.Cstring.Number.{IsDigit, value, atoi-value}
use almorina_os.Stdio.{Stdio, putc, puts_loop, puts, putd}

-- The characters of `s`, one after the other.
abbrev pub print : List ℕ → Stdio → Stdio
print [] io = io
print (c ∷ s) io = print s (putc c io)

pub print-append : (s t : List ℕ) (io : Stdio) → print (s ++ t) io ≡ print t (print s io)
print-append [] t io = refl
print-append (c ∷ s) t io = print-append s t (putc c io)

puts_loop-print :
    (s : List ℕ) (fuel c i : ℕ) (m : Memory) (io : Stdio)
    → length s < fuel
    → IsString m (c + i) s
    → puts_loop fuel c i m io ≡ some (print s io)
unfolding puts_loop
puts_loop-print s zero c i m io enough is = absurd (omega arith)
puts_loop-print [] (suc fuel) c i m io enough is = ground arith
puts_loop-print (x ∷ s) (suc fuel) c i m io enough (at, nonzero, is) =
    let next : c + i + 1 ≡ c + (i + 1) = omega arith in
    ground (arith, at, puts_loop-print s fuel c (i + 1) m (putc x io) (omega arith) (rw next at is))

-- With enough fuel `puts` prints the characters of its string in order, and no more.
puts-print :
    (s : List ℕ) (fuel p : ℕ) (m : Memory) (io : Stdio)
    → length s < fuel
    → IsString m p s
    → puts fuel p m io ≡ some (print s io)
unfolding puts
puts-print s fuel p m io enough is =
    let start : p ≡ p + 0 = omega arith in puts_loop-print s fuel p 0 m io enough (rw start at is)

value-append : (s : List ℕ) (n c : ℕ) → value n (s ++ c ∷ []) ≡ value n s * 10 + (c - b'0')
value-append [] n c = refl
value-append (d ∷ s) n c = value-append s (n * 10 + (d - b'0')) c

putd-last :
    (fuel n : ℕ) (io : Stdio)
    → (ltb 9 n && ltb n (2 ^ 31)) ≡ false
    → putd (suc fuel) n io ≡ some (print (u8 (b'0' + n) ∷ []) io)
unfolding putd
putd-last fuel n io last = rw last

putd-more :
    (fuel n : ℕ) (io io' : Stdio)
    → (ltb 9 n && ltb n (2 ^ 31)) ≡ true
    → putd fuel (n / 10) io ≡ some io'
    → putd (suc fuel) n io ≡ some (print (u8 (b'0' + (n - 10 * (n / 10))) ∷ []) io')
unfolding putd
putd-more fuel n io io' more run = ground (arith, more, run)

-- `putd` of an `int` that is not negative prints one or more digits, which spell the number; ten
-- calls are enough for any.
pub putd_digits :
    (fuel n : ℕ) (io : Stdio)
    → n < 10 ^ suc fuel
    → n < 2 ^ 31
    → (s : List ℕ) × (putd (suc fuel) n io ≡ some (print s io))
      × All IsDigit s
      × (value 0 s ≡ n)
      × (0 < length s)
putd_digits zero n io fits small =
    (u8 (b'0' + n) ∷ [], putd-last zero n io (ground arith), omega arith, omega arith, omega arith)
putd_digits (suc fuel) n io fits small = elim (Bool-cases (ltb 9 n && ltb n (2 ^ 31))) [
  | inr last ↦
      let few : n ≤ 9 = ground arith in
      (u8 (b'0' + n) ∷ [], putd-last (suc fuel) n io last, omega arith, omega arith, omega arith)
  | inl more ↦
      let (s, run, digits, spells, some_digit) =
        putd_digits fuel (n / 10) io (ground arith) (omega arith) in
      let c = u8 (b'0' + (n - 10 * (n / 10))) in
      (
        s ++ (c ∷ []),
        putd-more (suc fuel) n io (print s io) more run
            ∙ ap some (sym (print-append s (c ∷ []) io)),
        All-append IsDigit s (c ∷ []) digits (omega arith),
        value-append s 0 c ∙ omega arith,
        omega (arith, length-append s (c ∷ [])),
      )
]

-- What `putd` printed, `atoi` reads back: for every `int` that is not negative there is a text that
-- `putd` prints with ten calls, and of which `atoi`, where it stands in memory, makes the number.
pub atoi-putd :
    (n : ℕ) (io : Stdio)
    → n < 2 ^ 31
    → (s : List ℕ) × (putd 10 n io ≡ some (print s io))
      × ((fuel p : ℕ) (m : Memory) → length s < fuel → IsString m p s → atoi fuel p m ≡ some n)
atoi-putd n io small =
    let (s, run, digits, spells, _) = putd_digits 9 n io (omega arith) small in
    (
      s,
      run,
      λ fuel p m enough is. atoi-value s fuel p m enough digits (omega arith) is ∙ ap some spells,
    )
