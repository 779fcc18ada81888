-- ===== src/Shell/Evaluate.antt =====
-- `shell_eval_math_exp` of src/c-code/shell.c. A `float` is its pattern, and what the processor
-- computes of such patterns is the record `Floats`. The arrays `nums` and `ops` are, up to `count`,
-- the first number and the list of the operators, each with the number behind it.
pub mod Precedence
pub mod Written
mod Tests
use almorina_os.Prelude.{
  ℕ, zero, suc, ◌+◌, Bool, ◌&&◌, ◌||◌, Option, none, some, List, [], ◌∷◌, length, map, ◌==◌,
  if◌then◌else◌,
}
use almorina_os.Prelude.Store.{update}
use almorina_os.Prelude.Fault.{◌>>=◌}
use almorina_os.Cstring.{Memory, memset, strcpy, atoi}
use almorina_os.Shell.{isop, strip_spaces}

-- The operations of the processor on patterns of `float`.
pub record Floats : Type 0 where
  pub of_int : ℕ → ℕ
  pub add : ℕ → ℕ → ℕ
  pub subtract : ℕ → ℕ → ℕ
  pub multiply : ℕ → ℕ → ℕ
  pub divide : ℕ → ℕ → ℕ
  pub is_zero : ℕ → Bool

-- The operators behind a number, each with the number behind it.
abbrev pub Tail : Type 0
Tail = List (ℕ × ℕ)

abbrev pub is_sum : ℕ → Bool
is_sum op = op == b'-' || op == b'+'

abbrev pub is_product : ℕ → Bool
is_product op = op == b'*' || op == b'/'

-- The loop that moves `index`, from the operator at `i` on; `op` is the one at `index`.
unfoldable pub pick_loop : ℕ → ℕ → ℕ → List ℕ → ℕ
pick_loop i index op [] = index
pick_loop i index op (o ∷ ops) =
    let moved = pick_loop (i + 1) i o ops in
    let stays = pick_loop (i + 1) index op ops in if is_sum op && is_product o then moved else stays

unfoldable pub pick_index : List ℕ → ℕ
unfolding pick_loop
pick_index [] = 0
pick_index (op ∷ ops) = pick_loop 1 0 op ops

module _ (floats : Floats) where
  -- The `switch`; `none` is the division by zero.
  unfoldable pub compute : ℕ → ℕ → ℕ → Option ℕ
  compute op a b =
      if op == b'-'
      then some (floats.subtract a b)
      else if op == b'+'
      then some (floats.add a b)
      else if op == b'/'
      then if floats.is_zero b then none else some (floats.divide a b)
      else if op == b'*'
      then some (floats.multiply a b)
      else some a

  -- The numbers at `index` and behind it become one, and the arrays move up.
  unfoldable pub merge_at : ℕ → ℕ → Tail → Option (ℕ × Tail)
  unfolding compute
  merge_at index a [] = some (a, [])
  merge_at zero a ((op, b) ∷ rest) = compute op a b >>= λ n. some (n, rest)
  merge_at (suc index) a ((op, b) ∷ rest) = merge_at index b rest >>= λ r. some (a, (op, r.0) ∷ r.1)

  -- The `while` loop, by `count`. With one number its operator is 0, and the number stays.
  unfoldable pub reduce : ℕ → ℕ → Tail → Option ℕ
  unfolding merge_at pick_index
  reduce zero a rest = some a
  reduce (suc count) a rest =
      merge_at (pick_index (map (λ o. o.0) rest)) a rest >>= λ r. reduce count r.0 r.1

  -- The loop over the text in `exp`, by the rounds that are left: the number that starts at `p`, and
  -- what stands behind it.
  unfoldable pub parse_exp : ℕ → ℕ → ℕ → ℕ → Memory → Option (ℕ × Tail × Memory)
  parse_exp fuel zero i p m = atoi fuel p m >>= λ n. some (floats.of_int n, [], m)
  parse_exp fuel (suc rounds) i p m =
      let end = atoi fuel p m >>= λ n. some (floats.of_int n, [], m) in
      let m' = update m i 0 in
      let cut = atoi fuel p m' >>= λ n. parse_exp fuel rounds (i + 1) (i + 1) m' >>= λ r.
      some (floats.of_int n, (m i, r.0) ∷ r.1, r.2) in
      let rest = parse_exp fuel rounds (i + 1) p m in
      if m i == 0 then end else if isop (m i) then cut else rest

  -- Behind the clearing of the array, which has room for `rounds` bytes. A division by zero is
  -- reported, and the result is then 0.
  unfoldable pub evaluate_copy : ℕ → ℕ → ℕ → ℕ → Memory → Option (ℕ × Memory)
  unfolding reduce parse_exp
  evaluate_copy fuel exp rounds expression m = strcpy fuel exp expression m >>= λ m1.
      strip_spaces fuel exp m1 >>= λ m2. parse_exp fuel rounds exp exp m2 >>= λ r.
      let (a, rest, m3) = r in
      let result : ℕ = elim (reduce (length rest + 1) a rest) [
        | none ↦ floats.of_int 0
        | some n ↦ n
      ] in
      some (result, m3)

  -- The array `exp` of 100 bytes stands at `exp`.
  unfoldable pub shell_eval_math_exp : ℕ → ℕ → ℕ → Memory → Option (ℕ × Memory)
  unfolding evaluate_copy
  shell_eval_math_exp fuel exp expression m =
      evaluate_copy fuel exp 100 expression (memset exp 0 100 m)
