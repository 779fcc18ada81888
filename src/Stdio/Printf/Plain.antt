-- ===== src/Stdio/Printf/Plain.antt =====
-- Formats without directives.
use almorina_os.Prelude.{
  ℕ, zero, suc, ◌+◌, ◌<◌, ◌≡◌, ◌≢◌, refl, ap, ◌∙◌, arith, inl, inr, Bool-cases, Bool, true, false,
  ◌&&◌, Option, some, List, [], ◌∷◌, length, ◌==◌, if◌then◌else◌,
}
use almorina_os.Cstring.{Memory}
use almorina_os.Cstring.Bytes.{IsString}
use almorina_os.Stdio.{Stdio, putc}
use almorina_os.Stdio.Decimal.{print}
use almorina_os.Stdio.Printf.{printf_loop, printf, is_directive}

-- What a format without directives shows: its characters but for each '%'.
abbrev pub no_percent : List ℕ → List ℕ
no_percent [] = []
no_percent (c ∷ s) = let rest = no_percent s in if c == b'%' then rest else c ∷ rest

-- No '%' stands before the letter of a directive.
abbrev pub NoDirective : List ℕ → Type 0
NoDirective [] = Unit {0}
NoDirective (c ∷ []) = Unit {0}
NoDirective (c ∷ d ∷ s) = ((c == b'%' && is_directive d) ≡ false) × NoDirective (d ∷ s)

module _ (putf : ℕ → Stdio → Option Stdio) where
  printf_loop-step :
      (c limit fuel format i : ℕ) (arguments : List ℕ) (m : Memory) (io : Stdio)
      → m (format + i) ≡ c
      → c ≢ 0
      → (c == b'%' && is_directive (m (format + i + 1))) ≡ false
      → printf_loop putf limit (suc fuel) format i arguments m io
        ≡ printf_loop putf limit fuel format
            (i + 1)
            arguments
            m
            (if c == b'%' then io else putc c io)
  unfolding printf_loop
  printf_loop-step c limit fuel format i arguments m io at inside plain =
      let more : (c == 0) ≡ false = ground (arith, inside) in
      elim (Bool-cases (c == b'%')) [
        | inl percent ↦ rw (at, more, plain, percent) refl
        | inr other ↦ rw (at, more, plain, other) refl
      ]

  no_directive_at_end : (b : Bool) → (b && is_directive 0) ≡ false
  unfolding is_directive
  no_directive_at_end true = refl
  no_directive_at_end false = refl

  print-no_percent :
      (c : ℕ) (s : List ℕ) (io : Stdio)
      → print (no_percent s) (if c == b'%' then io else putc c io) ≡ print (no_percent (c ∷ s)) io
  print-no_percent c s io = elim (Bool-cases (c == b'%')) [
    | inl percent ↦ rw percent refl
    | inr other ↦ rw other refl
  ]

  printf_loop-print :
      (s : List ℕ) (limit fuel format i : ℕ) (arguments : List ℕ) (m : Memory) (io : Stdio)
      → length s < fuel
      → IsString m (format + i) s
      → NoDirective s
      → printf_loop putf limit fuel format i arguments m io ≡ some (print (no_percent s) io)
  unfolding printf_loop
  printf_loop-print s limit zero format i arguments m io enough is plain = absurd (omega arith)
  printf_loop-print [] limit (suc fuel) format i arguments m io enough is plain = rw is refl
  printf_loop-print (c ∷ []) limit (suc fuel) format i arguments m io enough is plain =
      let next : format + i + 1 ≡ format + (i + 1) = omega arith in
      printf_loop-step c limit fuel format i arguments m io is.0 is.1
        (rw is.2 (no_directive_at_end (c == b'%')))
      ∙ printf_loop-print [] limit fuel format (i + 1) arguments m
          (if c == b'%' then io else putc c io) (omega arith) (rw next at is.2) tt
      ∙ ap some (print-no_percent c [] io)
  printf_loop-print (c ∷ d ∷ s) limit (suc fuel) format i arguments m io enough is plain =
      let next : format + i + 1 ≡ format + (i + 1) = omega arith in
      printf_loop-step c limit fuel format i arguments m io is.0 is.1 (rw is.2.0 plain.0)
      ∙ printf_loop-print (d ∷ s) limit fuel format (i + 1) arguments m
          (if c == b'%' then io else putc c io) (omega arith) (rw next at is.2) plain.1
      ∙ ap some (print-no_percent c (d ∷ s) io)

-- With enough fuel `printf` of a format in which no '%' stands before the letter of a directive
-- prints its characters in order, but no '%', and looks at no argument.
printf-print :
    (putf : ℕ → Stdio → Option Stdio) (s : List ℕ) (fuel format : ℕ) (arguments : List ℕ)
    (m : Memory) (io : Stdio)
    → length s < fuel
    → IsString m format s
    → NoDirective s
    → printf putf fuel format arguments m io ≡ some (print (no_percent s) io)
unfolding printf
printf-print putf s fuel format arguments m io enough is plain =
    let start : format ≡ format + 0 = omega arith in
    printf_loop-print putf s fuel fuel format 0 arguments m io enough (rw start at is) plain
