-- ===== src/Shell.antt =====
-- The parts of the shell, src/c-code/shell.c, that work on text: expressions, spaces, and the
-- splitting of a line into arguments. Strings are bytes of memory, and `while` loops take fuel.
pub mod Expression
pub mod Spaces
pub mod Parse
pub mod Combine
pub mod Execute
pub mod Files
pub mod Variables
pub mod Output
pub mod Main
pub mod Edit
pub mod Evaluate
mod Tests
use almorina_os.Prelude.{
  ℕ, zero, suc, ◌+◌, ◌-◌, ◌*◌, Bool, true, false, not, ◌&&◌, ◌||◌, Option, none, some, List, [],
  ◌∷◌, ◌==◌, leb, if◌then◌else◌,
}
use almorina_os.Prelude.Words.{u32}
use almorina_os.Prelude.Store.{update}
use almorina_os.Prelude.Fault.{◌>>=◌}
use almorina_os.Cstring.{Memory}
use almorina_os.Heap.{Heap, malloc}

-- The inner loop: the first address from `d` on that holds no space.
unfoldable pub skip_spaces : ℕ → ℕ → Memory → Option ℕ
skip_spaces zero d m = none
skip_spaces (suc fuel) d m =
    let rest = skip_spaces fuel (d + 1) m in if m d == b' ' then rest else some d

-- The `do` loop, with the fuel of the inner loop: it writes at `s` what it reads at `d`.
unfoldable pub strip_loop : ℕ → ℕ → ℕ → ℕ → Memory → Option Memory
strip_loop limit zero s d m = none
strip_loop limit (suc fuel) s d m = skip_spaces limit d m >>= λ e.
    let m' = update m s (m e) in
    let rest = strip_loop limit fuel (s + 1) (e + 1) m' in if m e == 0 then some m' else rest

unfoldable pub strip_spaces : ℕ → ℕ → Memory → Option Memory
strip_spaces fuel s m = strip_loop fuel fuel s s m

unfoldable pub isop : ℕ → Bool
isop c = c == b'-' || c == b'+' || c == b'/' || c == b'*'

unfoldable pub isdigit : ℕ → Bool
isdigit c = leb b'0' c && leb c b'9'

unfoldable pub is_exp_loop : ℕ → ℕ → Bool → Memory → Option Bool
is_exp_loop zero str as_digit m = none
is_exp_loop (suc fuel) str as_digit m =
    let rest = is_exp_loop fuel (str + 1) (as_digit || isdigit (m str)) m in
    if m str == 0
    then some as_digit
    else if not (isop (m str)) && not (isdigit (m str)) && not (m str == b' ')
    then some false
    else rest

unfoldable pub is_exp : ℕ → ℕ → Memory → Option Bool
is_exp fuel str m = is_exp_loop fuel str false m

-- The first loop of `shell_parse`, which counts the arguments.
unfoldable pub count_args : ℕ → ℕ → ℕ → Memory → Option ℕ
count_args zero curr argc m = none
count_args (suc fuel) curr argc m =
    let rest = count_args fuel (curr + 1) (if m curr == b' ' then u32 (argc + 1) else argc) m in
    if m curr == 0 then some argc else rest

-- The second loop, by the number of arguments that `i` still lacks: the pointers that it writes to
-- `args`, in order, with the last one of the function, and the line with its spaces cut.
unfoldable pub cut_args : ℕ → ℕ → ℕ → ℕ → Memory → Option (List ℕ × Memory)
cut_args zero left curr start m = none
cut_args (suc fuel) left curr start m =
    let cut = cut_args fuel (left - 1) (curr + 1) (curr + 1) (update m curr 0) in
    let rest = cut_args fuel left (curr + 1) start m in
    if left == 0
    then some (start ∷ [], m)
    else if m curr == 0
    then some (start ∷ [], m)
    else if m curr == b' '
    then (cut >>= λ r. some (start ∷ r.0, r.1))
    else rest

-- What `shell_parse` returns and writes.
pub record Parsed : Type 0 where
  pub argc : ℕ
  pub argv : ℕ
  pub args : List ℕ
  pub mem : Memory
  pub heap : Heap

-- The array comes from the heap; its words are the list `args`.
unfoldable pub shell_parse : ℕ → ℕ → Memory → Heap → Option Parsed
shell_parse fuel line m h = count_args fuel line 1 m >>= λ argc. malloc fuel (8 * argc) h >>= λ r.
    cut_args fuel argc line line m >>= λ a.
    some (record { argc = argc; argv = r.0; args = a.0; mem = a.1; heap = r.1 })
