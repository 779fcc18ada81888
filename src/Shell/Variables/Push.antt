-- ===== src/Shell/Variables/Push.antt =====
-- The list of variables before and after one is set.
use almorina_os.Prelude.{
  ℕ, zero, suc, ◌+◌, ◌<◌, ◌≡◌, ◌≢◌, inl, inr, refl, arith, false, Bool-cases, some, List, [], ◌∷◌,
  ◌++◌, map, length, All, ◌==◌, if◌then◌else◌,
}
use almorina_os.Prelude.Store.{update}
use almorina_os.Cstring.{Memory}
use almorina_os.Cstring.Bytes.{IsString}
use almorina_os.Cstring.Search.{AreBytes}
use almorina_os.Cstring.Same.{same, strcmp-same}
use almorina_os.Shell.Variables.{ShellList, find_variable}

-- The nodes from `a` on are these, with these names, each shorter than `k`.
abbrev pub IsList : (ℕ → ShellList) → Memory → ℕ → ℕ → List (ℕ × List ℕ) → Type 0
IsList node m k a [] = a ≡ 0
IsList node m k a ((p, n) ∷ vars) =
    (a ≡ p)
    × (p ≢ 0)
    × (IsString m (node p).name n × AreBytes n × (length n < k))
    × IsList node m k (node p).next vars

-- The nodes from `a` on are these.
abbrev pub Chain : (ℕ → ShellList) → ℕ → List ℕ → Type 0
Chain node a [] = a ≡ 0
Chain node a (p ∷ ps) = (a ≡ p) × (p ≢ 0) × Chain node (node p).next ps

abbrev pub var_of : List ℕ → List (ℕ × List ℕ) → ℕ
var_of name [] = 0
var_of name ((p, n) ∷ vars) = let rest = var_of name vars in if same n name then p else rest

pub find_variable-var_of :
    (vars : List (ℕ × List ℕ)) (s : List ℕ) (k fuel a name : ℕ) (node : ℕ → ShellList) (m : Memory)
    → k + length vars < fuel
    → IsList node m k a vars
    → AreBytes s
    → IsString m name s
    → find_variable fuel a name node m ≡ some (var_of s vars)
unfolding find_variable
find_variable-var_of vars s k zero a name node m enough is bytes here = absurd (omega arith)
find_variable-var_of [] s k (suc fuel) a name node m enough is bytes here = rw is refl
find_variable-var_of ((p, n) ∷ vars) s k (suc fuel) a name node m enough
      (at, nonzero, (named, small, short), rest) bytes here =
    let (r, runs, test) =
      strcmp-same n s fuel (node p).name name m (omega arith) small bytes named here in
    let there : (p == 0) ≡ false = ground (arith, nonzero) in
    let next =
      find_variable-var_of vars s k fuel (node p).next name node m (omega arith) rest bytes here in
    elim (Bool-cases (same n s)) [
      | inl eq ↦ rw (at, there, runs, test, eq) refl
      | inr ne ↦ rw (at, there, runs, test, ne, next) refl
    ]

-- A list whose first node with the name is `p` ends with it once its link is cleared.
pub Chain-cut :
    (front back : List (ℕ × List ℕ)) (n : List ℕ) (p a k : ℕ) (node : ℕ → ShellList) (m : Memory)
    (entry : ShellList)
    → IsList node m k a (front ++ (p, n) ∷ back)
    → All (λ v. v.0 ≢ p) front
    → entry.next ≡ 0
    → Chain (update node p entry) a (map (λ v. v.0) front ++ p ∷ [])
Chain-cut [] back n p a k node m entry (at, nonzero, _, rest) apart cut =
    (at, nonzero, ground (arith, cut))
Chain-cut ((q, t) ∷ front) back n p a k node m entry (at, nonzero, _, rest) (other, apart) cut =
    let kept : update node p entry q ≡ node q = ground (arith, other) in
    (at, nonzero, rw kept (Chain-cut front back n p (node q).next k node m entry rest apart cut))
