-- ===== src/Shell/Variables/Value.antt =====
-- Setting a variable to a text that is no expression.
use almorina_os.Prelude.{
  ℕ, ◌+◌, ◌*◌, ◌/◌, ◌<◌, ◌^◌, ◌≡◌, ◌≢◌, refl, arith, false, ◌&&◌, some, List, [], ◌∷◌, ◌++◌, map,
  length, All, ◌==◌,
}
use almorina_os.Prelude.Store.{update, update_self}
use almorina_os.Cstring.{Memory}
use almorina_os.Cstring.Bytes.{IsString, IsString-same, Apart}
use almorina_os.Cstring.Text.{IsString-agree}
use almorina_os.Cstring.Search.{AreBytes}
use almorina_os.Cstring.Same.{same, same_refl}
use almorina_os.Heap.{Heap, malloc}
use almorina_os.Shell.Expression.{only_exp, has_digit}
use almorina_os.Shell.Variables.{
  ShellList, Variables, Number, string, clear_low, set_variable, variables_push, shell_list_size,
}
use almorina_os.Shell.Variables.Copies.{set_name_lem, set_data-string}
use almorina_os.Shell.Variables.Push.{IsList, Chain, var_of, find_variable-var_of, Chain-cut}

-- The name `n` and the text `d`, which is no expression, stand in memory, and the heap gives memory
-- at `p`, `q` and `r` for their copies, apart from each other and with a byte behind each; for the
-- last one after the NUL behind the one before it.
pub record Given (fuel name text : ℕ) (n d : List ℕ) (m : Memory) (h : Heap) (p q r : ℕ) (h' : Heap)
    : Type 0 where
  pub after_name : Heap
  pub after_names : Heap
  pub name_enough : length n < fuel
  pub name_small : length n + 1 < 2 ^ 31
  pub text_enough : length d < fuel
  pub text_small : length d + 1 < 2 ^ 31
  pub name_is : IsString m name n
  pub text_is : IsString m text d
  pub no_exp : (only_exp d && has_digit d) ≡ false
  pub first : malloc fuel (length n + 1) h ≡ some (p, after_name)
  pub second : malloc fuel (length n + 1) after_name ≡ some (q, after_names)
  pub third : malloc fuel (length d + 1) (clear_low (q + (length n + 1)) after_names) ≡ some (r, h')
  pub first_name : Apart p (length n + 2) name (length n + 1)
  pub second_name : Apart q (length n + 2) name (length n + 1)
  pub first_text : Apart p (length n + 2) text (length d + 1)
  pub second_text : Apart q (length n + 2) text (length d + 1)
  pub third_text : Apart r (length d + 2) text (length d + 1)
  pub third_second : Apart r (length d + 2) q (length n + 2)

-- The node that is written.
abbrev pub entry : ℕ → ℕ → ShellList
entry q r = record { next = 0; name = q; data_at = r; type = string }

-- The copies stand at `q` and `r`.
abbrev pub Copied : List ℕ → List ℕ → ℕ → ℕ → Memory → Type 0
Copied n d q r m = IsString m q n × IsString m r d

-- A header at `a` loses the low byte of its size, and nothing else of the heap is changed.
abbrev pub LosesLow : ℕ → Heap → Heap → Type 0
LosesLow a h h' =
    ((h'.cell a).len ≡ (h.cell a).len / 256 * 256)
    × ((h'.cell a).free ≡ (h.cell a).free)
    × ((h'.cell a).next ≡ (h.cell a).next)
    × ((x : ℕ) → x ≢ a → h'.cell x ≡ h.cell x)
    × (h'.heap ≡ h.heap)
    × (h'.free_seg ≡ h.free_seg)

clear_low-LosesLow : (a : ℕ) (h : Heap) → LosesLow a h (clear_low a h)
clear_low-LosesLow a h =
    (ground arith, ground arith, ground arith, (λ x other. ground arith), refl, refl)

module _ (eval : ℕ → Memory → Number) (fuel name text : ℕ) (n d : List ℕ) (p q r : ℕ)
    (h' : Heap) where
  set_variable-string :
      (at : ℕ) (s : Variables)
      → Given fuel name text n d s.mem s.heap p q r h'
      → (m' : Memory) × (set_variable eval fuel at name text s
          ≡ some (record s {
            node = update s.node at (entry q r);
            mem = m';
            heap = clear_low (r + (length d + 1)) h';
          }))
        × Copied n d q r m'
  unfolding set_variable
  set_variable-string at s g =
      let (m1, runs1, copied1, same1) =
        set_name_lem n fuel name p q s.mem s.heap g.after_name g.after_names g.name_enough
          g.name_small g.name_is g.first_name g.second_name g.first g.second in
      let text1 : IsString m1 text d =
        IsString-agree d s.mem m1 text
          (λ x lo hi. same1 x (ground (arith, g.first_text)) (ground (arith, g.second_text)))
          g.text_is in
      let (m2, runs2, copied2, same2) =
        set_data-string eval d fuel text r m1 (clear_low (q + (length n + 1)) g.after_names) h'
          g.text_enough g.text_small text1 g.no_exp g.third_text g.third in
      (
        m2,
        rw (runs1, runs2) refl,
        (
          IsString-same n m1 m2 q r (length d + 2) same2 (ground (arith, g.third_second)) copied1,
          copied2,
        ),
      )

var_of-first :
    (front back : List (ℕ × List ℕ)) (n : List ℕ) (p : ℕ)
    → All (λ v. same v.1 n ≡ false) front
    → var_of n (front ++ (p, n) ∷ back) ≡ p
var_of-first [] back n p other = rw (same_refl n) refl
var_of-first ((q, t) ∷ front) back n p (other, others) =
    rw other (var_of-first front back n p others)

var_of-none :
    (vars : List (ℕ × List ℕ)) (n : List ℕ) → All (λ v. same v.1 n ≡ false) vars → var_of n vars ≡ 0
var_of-none [] n other = refl
var_of-none ((q, t) ∷ vars) n (other, others) = rw other (var_of-none vars n others)

Chain-kept :
    (vars : List (ℕ × List ℕ)) (p a k : ℕ) (node node' : ℕ → ShellList) (m : Memory)
    → IsList node m k a vars
    → All (λ v. v.0 ≢ p) vars
    → ((x : ℕ) → x ≢ p → node' x ≡ node x)
    → Chain node' a (map (λ v. v.0) vars)
Chain-kept [] p a k node node' m is apart kept = is
Chain-kept ((q, t) ∷ vars) p a k node node' m (at, nonzero, _, rest) (other, apart) kept = (
  at,
  nonzero,
  rw (kept q other) (Chain-kept vars p (node q).next k node node' m rest apart kept),
)

-- `variables_push` of a name that is in the list, with a text that is no expression and with enough
-- fuel, sets that variable and cuts the list behind it: it is then the last one, and those behind it
-- are lost. The name and the text are copied. A NUL goes to the byte behind the memory that the heap
-- gave for each: it clears the low byte of the size in a header that stands there, before the memory
-- for the text is given, and again at the end; nothing else of the heap is changed.
pub variables_push-existing :
    (eval : ℕ → Memory → Number) (fuel name text k p q r at : ℕ) (n d : List ℕ)
    (front back : List (ℕ × List ℕ)) (s : Variables) (h' : Heap)
    → k + length (front ++ (at, n) ∷ back) < fuel
    → IsList s.node s.mem k s.shell_variables (front ++ (at, n) ∷ back)
    → All (λ v. same v.1 n ≡ false) front
    → All (λ v. v.0 ≢ at) front
    → at ≢ 0
    → AreBytes n
    → Given fuel name text n d s.mem s.heap p q r h'
    → (s' : Variables) × (variables_push eval fuel name text s ≡ some s')
      × Chain s'.node s'.shell_variables (map (λ v. v.0) front ++ at ∷ [])
      × (s'.node at ≡ entry q r)
      × Copied n d q r s'.mem
      × LosesLow (r + (length d + 1)) h' s'.heap
unfolding variables_push
variables_push-existing eval fuel name text k p q r at n d front back s h' enough is others apart
      nonzero bytes g =
    let vars = front ++ (at, n) ∷ back in
    let finds =
      find_variable-var_of vars n k fuel s.shell_variables name s.node s.mem enough is bytes
        g.name_is in
    let first = var_of-first front back n at others in
    let there : (at == 0) ≡ false = ground (arith, nonzero) in
    let (m', runs, copied) = set_variable-string eval fuel name text n d p q r h' at s g in
    (
      record s {
        node = update s.node at (entry q r);
        mem = m';
        heap = clear_low (r + (length d + 1)) h';
      },
      rw (finds, first, there) runs,
      Chain-cut front back n at s.shell_variables k s.node s.mem (entry q r) is apart refl,
      ground arith,
      copied,
      clear_low-LosesLow (r + (length d + 1)) h',
    )

-- `variables_push` of a name that is not in the list, with a text that is no expression and with
-- enough fuel, puts a new node with copies of the name and the text in front of the list, which stays
-- as it is behind it. A NUL goes to the byte behind the memory of each copy: it clears the low byte of
-- the size in a header that stands there, before the memory for the text is given, and again at the
-- end; nothing else of the heap is changed.
pub variables_push-new :
    (eval : ℕ → Memory → Number) (fuel name text k p q r at : ℕ) (n d : List ℕ)
    (vars : List (ℕ × List ℕ)) (s : Variables) (h h' : Heap)
    → k + length vars < fuel
    → IsList s.node s.mem k s.shell_variables vars
    → All (λ v. same v.1 n ≡ false) vars
    → All (λ v. v.0 ≢ at) vars
    → at ≢ 0
    → AreBytes n
    → malloc fuel shell_list_size s.heap ≡ some (at, h)
    → Given fuel name text n d s.mem h p q r h'
    → (s' : Variables) × (variables_push eval fuel name text s ≡ some s')
      × Chain s'.node s'.shell_variables (at ∷ map (λ v. v.0) vars)
      × ((s'.node at).name ≡ q)
      × ((s'.node at).data_at ≡ r)
      × Copied n d q r s'.mem
      × LosesLow (r + (length d + 1)) h' s'.heap
unfolding variables_push
variables_push-new eval fuel name text k p q r at n d vars s h h' enough is others apart nonzero
      bytes node_given g =
    let finds =
      find_variable-var_of vars n k fuel s.shell_variables name s.node s.mem enough is bytes
        g.name_is in
    let missing = var_of-none vars n others in
    let (m', runs, copied) =
      set_variable-string eval fuel name text n d p q r h' at (record s { heap = h }) g in
    let pushed : ShellList = record {
      next = s.shell_variables;
      name = q;
      data_at = r;
      type = string;
    } in
    let node' = update (update s.node at (entry q r)) at pushed in
    (
      record s {
        shell_variables = at;
        node = node';
        mem = m';
        heap = clear_low (r + (length d + 1)) h';
      },
      rw (finds, missing, node_given, runs, update_self s.node at (entry q r)) refl,
      (
        refl,
        nonzero,
        rw (update_self (update s.node at (entry q r)) at pushed) (
            Chain-kept vars at s.shell_variables k s.node node' s.mem is apart
              (λ x other. ground (arith, other))),
      ),
      ground arith,
      ground arith,
      copied,
      clear_low-LosesLow (r + (length d + 1)) h',
    )
