-- ===== src/Shell/Expression.antt =====
-- When a text counts as an expression.
use almorina_os.Prelude.{
  ℕ, zero, suc, ◌+◌, ◌<◌, ◌≡◌, Bool, true, false, ◌&&◌, ◌||◌, some, List, [], ◌∷◌, arith, length,
  ◌==◌,
}
use almorina_os.Cstring.{Memory}
use almorina_os.Cstring.Bytes.{IsString}
use almorina_os.Shell.{isop, isdigit, is_exp_loop, is_exp}

-- Whether a text has operators, digits and spaces only.
abbrev pub only_exp : List ℕ → Bool
only_exp [] = true
only_exp (c ∷ s) = (isop c || isdigit c || c == b' ') && only_exp s

abbrev pub has_digit : List ℕ → Bool
has_digit [] = false
has_digit (c ∷ s) = isdigit c || has_digit s

is_exp_loop_lem :
    (s : List ℕ) (fuel p : ℕ) (seen : Bool) (m : Memory)
    → length s < fuel
    → IsString m p s
    → is_exp_loop fuel p seen m ≡ some (only_exp s && (seen || has_digit s))
unfolding is_exp_loop
is_exp_loop_lem s zero p seen m enough is = absurd (omega arith)
is_exp_loop_lem [] (suc fuel) p seen m enough is = ground (arith, is)
is_exp_loop_lem (c ∷ s) (suc fuel) p seen m enough is =
    ground (arith, is, is_exp_loop_lem s fuel (p + 1) (seen || isdigit c) m)

-- With enough fuel `is_exp` says whether a string has operators, digits and spaces only, and at
-- least one digit.
pub is_exp_lem :
    (s : List ℕ) (fuel p : ℕ) (m : Memory)
    → length s < fuel
    → IsString m p s
    → is_exp fuel p m ≡ some (only_exp s && has_digit s)
unfolding is_exp
is_exp_lem s fuel p m enough is = is_exp_loop_lem s fuel p false m enough is
