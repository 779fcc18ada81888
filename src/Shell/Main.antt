-- ===== src/Shell/Main.antt =====
-- A round of `shell_main`, src/c-code/shell.c: a line is typed, cut into words, and its command is
-- called. The table's functions are an argument, by their places in the table; what the colours and
-- the prompt print is left out, as is the end of the loop, which is never reached.
pub mod Typed
use almorina_os.Prelude.{ℕ, zero, suc, ◌+◌, Option, none, some, List, [], ◌∷◌, ◌==◌, if◌then◌else◌}
use almorina_os.Prelude.Store.{update}
use almorina_os.Prelude.Fault.{◌>>=◌}
use almorina_os.Cstring.{Memory}
use almorina_os.Heap.{Heap, free}
use almorina_os.Stdio.{newline_char}
use almorina_os.Keyboard.Line.{fgets}
use almorina_os.Shell.{Parsed, shell_parse}
use almorina_os.Shell.Execute.{ShellCommand, Executed, call, shell_execute}

-- sizeof(line)
abbrev pub line_size : ℕ
line_size = 200

-- `*i` is read again behind a newline that became a NUL, so that the loop goes on there.
unfoldable pub clear_newlines : ℕ → ℕ → Memory → Option Memory
clear_newlines zero i m = none
clear_newlines (suc fuel) i m =
    let rest = clear_newlines fuel (i + 1) (if m i == newline_char then update m i 0 else m) in
    if m i == 0 then some m else rest

-- `argv[0]`
abbrev pub first_word : Parsed → ℕ
first_word r = elim r.args [ [] ↦ 0 | a ∷ _ ↦ a ]

-- From the keys to the command: what is executed, the line's words, and the keys that are left.
unfoldable pub read_command :
    ℕ → List ShellCommand → List ℕ → ℕ → Memory → Heap → Option (Executed × Parsed × List ℕ)
read_command fuel commands keys line m h = fgets keys line line_size m >>= λ typed.
    clear_newlines fuel line typed.0 >>= λ m'. shell_parse fuel line m' h >>= λ r.
    shell_execute fuel commands (first_word r) r.argc r.mem >>= λ e. some (e, r, typed.1)

-- One function of the table, with its arguments; it may write memory and the heap.
abbrev pub Callbacks : Type 0
Callbacks = ℕ → List ℕ → Memory × Heap → Option (Memory × Heap)

unfoldable pub run_command : Callbacks → Executed → List ℕ → Memory × Heap → Option (Memory × Heap)
run_command callbacks e args s = elim e [ call i ↦ callbacks i args s | _ ↦ some s ]

-- The whole round; the array of words goes back to the heap.
unfoldable pub shell_round :
    Callbacks → ℕ → List ShellCommand → List ℕ → ℕ → Memory × Heap → Option (Memory × Heap × List ℕ)
unfolding read_command run_command
shell_round callbacks fuel commands keys line s =
    read_command fuel commands keys line s.0 s.1 >>= λ c.
    let (e, r, left) = c in
    run_command callbacks e r.args (r.mem, r.heap) >>= λ t.
    free fuel r.argv t.1 >>= λ f. some (t.0, f.1, left)
