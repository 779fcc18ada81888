-- ===== src/Shell/Evaluate/Tests.antt =====
-- The expression "1 + 2*3-4", in whole numbers.
use almorina_os.Prelude.{
  ℕ, ◌+◌, ◌-◌, ◌*◌, ◌/◌, ◌≡◌, refl, arith, inl, inr, some, List, [], ◌∷◌, get_or, ltb, ◌==◌,
  if◌then◌else◌,
}
use almorina_os.Cstring.{Memory}
use almorina_os.Shell.Evaluate.{Floats, shell_eval_math_exp}
use almorina_os.Shell.Evaluate.Written.{shell_eval_math_exp_lem}

abbrev whole_numbers : Floats
whole_numbers = record {
  of_int = λ n. n;
  add = ◌+◌;
  subtract = ◌-◌;
  multiply = ◌*◌;
  divide = ◌/◌;
  is_zero = λ n. n == 0;
}

abbrev sum_text : List ℕ
sum_text = b'1' ∷ b' ' ∷ b'+' ∷ b' ' ∷ b'2' ∷ b'*' ∷ b'3' ∷ b'-' ∷ b'4' ∷ []

-- The text stands at 500.
abbrev text_memory : Memory
text_memory q = if ltb q 500 then 0 else get_or sum_text (q - 500) 0

shell_eval_math_exp_lem_example :
    (m' : Memory) × (shell_eval_math_exp whole_numbers 10 1000 500 text_memory ≡ some (3, m'))
shell_eval_math_exp_lem_example =
    shell_eval_math_exp_lem whole_numbers sum_text (b'1' ∷ [])
      ((b'+', b'2' ∷ []) ∷ (b'*', b'3' ∷ []) ∷ (b'-', b'4' ∷ []) ∷ []) 10 1000 500 text_memory
      (omega arith) (omega arith) refl (((omega arith, omega arith), tt), omega arith)
      (
        (inl refl, (((omega arith, omega arith), tt), omega arith)),
        (
          (inr (inr (inl refl)), (((omega arith, omega arith), tt), omega arith)),
          ((inr (inl refl), (((omega arith, omega arith), tt), omega arith)), tt),
        ),
      )
      (
        refl,
        omega arith,
        (
          refl,
          omega arith,
          (
            refl,
            omega arith,
            (
              refl,
              omega arith,
              (
                refl,
                omega arith,
                (
                  refl,
                  omega arith,
                  (refl, omega arith, (refl, omega arith, (refl, omega arith, refl))),
                ),
              ),
            ),
          ),
        ),
      )
      (inr (omega arith))
