-- ===== src/Shell/Output/Listed.antt =====
-- What `vars` and `echo` print of a list of variables.
use almorina_os.Prelude.{
  ℕ, zero, suc, ◌+◌, ◌<◌, ◌≡◌, inl, inr, refl, arith, false, Bool-cases, some, List, [], ◌∷◌, ◌++◌,
  length, ◌==◌, if◌then◌else◌,
}
use almorina_os.Cstring.{Memory}
use almorina_os.Cstring.Bytes.{IsString}
use almorina_os.Cstring.Search.{AreBytes}
use almorina_os.Cstring.Same.{same, strcmp-same}
use almorina_os.Shell.Variables.{ShellList, Variables}
use almorina_os.Shell.Variables.Push.{IsList, Chain}
use almorina_os.Shell.Output.{Piece, text, print_value, echo_variables, var_line, vars_loop, vars}

-- The lines of the variables, in order.
abbrev pub lines : (ℕ → ShellList) → Memory → List ℕ → List Piece
lines node m [] = []
lines node m (p ∷ ps) = var_line (node p) m ++ lines node m ps

vars_loop_lem :
    (ps : List ℕ) (fuel a : ℕ) (node : ℕ → ShellList) (m : Memory)
    → length ps < fuel
    → Chain node a ps
    → vars_loop fuel a node m ≡ some (lines node m ps)
unfolding vars_loop
vars_loop_lem ps zero a node m enough chain = absurd (omega arith)
vars_loop_lem [] (suc fuel) a node m enough chain = rw chain refl
vars_loop_lem (p ∷ ps) (suc fuel) a node m enough (at, nonzero, chain) =
    let there : (p == 0) ≡ false = ground (arith, nonzero) in
    rw (at, there, vars_loop_lem ps fuel (node p).next node m (omega arith) chain) refl

-- With enough fuel, `vars` prints every variable of the list once, in order, with its name and value.
vars_lem :
    (ps : List ℕ) (fuel : ℕ) (s : Variables)
    → length ps < fuel
    → Chain s.node s.shell_variables ps
    → vars fuel s ≡ some (lines s.node s.mem ps)
unfolding vars
vars_lem ps fuel s enough chain = vars_loop_lem ps fuel s.shell_variables s.node s.mem enough chain

-- The values of the variables with the name, each with a space.
abbrev pub values : (ℕ → ShellList) → Memory → List ℕ → List (ℕ × List ℕ) → List Piece
values node m name [] = []
values node m name ((p, n) ∷ vars) =
    let rest = values node m name vars in
    if same n name then print_value (node p) m ∷ text (b' ' ∷ []) ∷ rest else rest

-- With enough fuel, `echo` of a name prints the value of every variable of the list that has it, in
-- order, and nothing of the others.
echo_variables_lem :
    (vars : List (ℕ × List ℕ)) (s : List ℕ) (k fuel a name : ℕ) (node : ℕ → ShellList) (m : Memory)
    → k + length vars < fuel
    → IsList node m k a vars
    → AreBytes s
    → IsString m name s
    → echo_variables fuel a name node m ≡ some (values node m s vars)
unfolding echo_variables
echo_variables_lem vars s k zero a name node m enough is bytes here = absurd (omega arith)
echo_variables_lem [] s k (suc fuel) a name node m enough is bytes here = rw is refl
echo_variables_lem ((p, n) ∷ vars) s k (suc fuel) a name node m enough
      (at, nonzero, (named, small, short), rest) bytes here =
    let (r, runs, test) =
      strcmp-same n s fuel (node p).name name m (omega arith) small bytes named here in
    let there : (p == 0) ≡ false = ground (arith, nonzero) in
    let next =
      echo_variables_lem vars s k fuel (node p).next name node m (omega arith) rest bytes here in
    elim (Bool-cases (same n s)) [
      | inl eq ↦ rw (at, there, runs, test, eq, next) refl
      | inr ne ↦ rw (at, there, runs, test, ne, next) refl
    ]
