-- ===== src/Shell/Variables.antt =====
-- The variables of the shell, src/c-code/shell.c: a list of nodes, in a store by address, whose names
-- and data are bytes of the heap. What `shell_eval_math_exp` computes (Shell.Evaluate) is an argument.
pub mod Copies
pub mod Push
pub mod Value
mod Tests
use almorina_os.Prelude.{
  ℕ, zero, suc, ◌+◌, ◌-◌, ◌*◌, ◌/◌, ◌^◌, Bool, true, false, not, ◌&&◌, Option, none, some, ltb,
  ◌==◌, if◌then◌else◌,
}
use almorina_os.Prelude.Words.{u32}
use almorina_os.Prelude.Store.{update}
use almorina_os.Prelude.Fault.{◌>>=◌}
use almorina_os.Cstring.{Memory, strlen, strcpy, strcmp, count}
use almorina_os.Heap.{Heap, malloc}
use almorina_os.Fs.{int_to_u64}
use almorina_os.Fs.Word.{store}
use almorina_os.Shell.{is_exp}

-- `enum SHELL_TYPE`
pub data ShellType : Type 0 where
  int float string : ShellType

-- `shell_list_t`; a null `next` is 0.
pub record ShellList : Type 0 where
  pub next : ℕ
  pub name : ℕ
  pub data_at : ℕ
  pub type : ShellType

-- sizeof(shell_list_t): three pointers and a padded `enum`.
abbrev pub shell_list_size : ℕ
shell_list_size = 32

-- The global `shell_variables`, the nodes, the bytes and the heap.
pub record Variables : Type 0 where
  pub shell_variables : ℕ
  pub node : ℕ → ShellList
  pub mem : Memory
  pub heap : Heap

-- A value of an expression: its pattern as a `float`, that of its whole part as an `int`, and whether
-- the two are equal.
pub record Number : Type 0 where
  pub float_pattern : ℕ
  pub int_pattern : ℕ
  pub is_whole : Bool

-- Memory from the heap for a string, whose address and length, with its NUL, are returned, and the
-- copy of the string.
unfoldable pub copy_string : ℕ → ℕ → Memory → Heap → Option (ℕ × ℕ × Memory × Heap)
copy_string fuel text m h = strlen fuel text m >>= λ n.
    let len = u32 (n + 1) in
    malloc fuel (int_to_u64 len) h >>= λ r.
    strcpy fuel r.0 text m >>= λ m'. some (r.0, len, m', r.1)

-- A NUL is written to the byte at `a`, behind the memory of a copy. Where a header of the heap stands
-- there, this byte is the lowest of its `len`.
abbrev pub clear_low : ℕ → Heap → Heap
clear_low a h =
    let c = h.cell a in record h { cell = update h.cell a (record c { len = c.len / 256 * 256 }) }

-- `node->name` is set twice; the first copy is lost, and the second one's NUL goes behind its memory.
unfoldable pub set_name : ℕ → ℕ → Memory → Heap → Option (ℕ × Memory × Heap)
set_name fuel name m h = copy_string fuel name m h >>= λ first.
    let (p, len, m1, h1) = first in
    copy_string fuel name (update m1 (p + len - 1) 0) h1 >>= λ second.
    let (q, len', m2, h2) = second in some (q, update m2 (q + len') 0, clear_low (q + len') h2)

unfoldable pub set_number :
    ℕ → Bool → Number → Memory → Heap → Option (ℕ × ShellType × Memory × Heap)
set_number fuel is_float num m h = malloc fuel 4 h >>= λ r.
    if is_float && not num.is_whole
    then some (r.0, float, store 4 r.0 num.float_pattern m, r.1)
    else some (r.0, int, store 4 r.0 num.int_pattern m, r.1)

-- `eval` is `shell_eval_math_exp`.
unfoldable pub set_data :
    (ℕ → Memory → Number) → ℕ → ℕ → Memory → Heap → Option (ℕ × ShellType × Memory × Heap)
unfolding set_number
set_data eval fuel text m h = is_exp fuel text m >>= λ exp.
    let number = count fuel text b'/' m >>= λ slashes.
    set_number fuel (not (slashes == 0)) (eval text m) m h in
    let copied = copy_string fuel text m h >>= λ r.
    let (p, len, m', h') = r in some (p, string, update m' (p + len) 0, clear_low (p + len) h') in
    if exp then number else copied

unfoldable pub set_variable : (ℕ → Memory → Number) → ℕ → ℕ → ℕ → ℕ → Variables → Option Variables
unfolding set_name set_data
set_variable eval fuel p name text s = set_name fuel name s.mem s.heap >>= λ n.
    set_data eval fuel text n.1 n.2 >>= λ d.
    let (at, type, m, h) = d in
    let entry : ShellList = record { next = 0; name = n.0; data_at = at; type = type } in
    some (record s { node = update s.node p entry; mem = m; heap = h })

-- The first node with the name, or 0.
unfoldable pub find_variable : ℕ → ℕ → ℕ → (ℕ → ShellList) → Memory → Option ℕ
find_variable zero curr name node m = none
find_variable (suc fuel) curr name node m =
    let s = node curr in
    let next = find_variable fuel s.next name node m in
    if curr == 0
    then some 0
    else (strcmp fuel s.name name m >>= λ r. if r == 0 then some curr else next)

-- A variable that is there gets its value; a new one is put in front. The result of `malloc` is not
-- tested.
unfoldable pub variables_push : (ℕ → Memory → Number) → ℕ → ℕ → ℕ → Variables → Option Variables
unfolding set_variable find_variable
variables_push eval fuel name text s =
    find_variable fuel s.shell_variables name s.node s.mem >>= λ p.
    let pushed = malloc fuel shell_list_size s.heap >>= λ r.
    set_variable eval fuel r.0 name text (record s { heap = r.1 }) >>= λ s'.
    let entry = s'.node r.0 in
    some (record s' {
      node = update s'.node r.0 (record entry { next = s'.shell_variables });
      shell_variables = r.0;
    }) in
    if p == 0 then pushed else set_variable eval fuel p name text s
