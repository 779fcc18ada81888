-- ===== src/Shell/Execute.antt =====
-- `shell_execute` of src/c-code/shell.c: which command a line starts. The table's strings stand in
-- memory, at the addresses of `commands`; a callback is its place in the table.
pub mod Dispatch
mod Tests
use almorina_os.Prelude.{ℕ, suc, ◌+◌, Option, some, List, [], ◌∷◌, ltb, ◌==◌, if◌then◌else◌}
use almorina_os.Prelude.Fault.{◌>>=◌}
use almorina_os.Cstring.{Memory, strcmp}

-- `struct shell_command`; `command` is the address of the name.
pub record ShellCommand : Type 0 where
  pub command : ℕ
  pub min_args : ℕ

-- The names of `shell_callback`, and the numbers of arguments, in order.
abbrev pub shell_callback : List (List ℕ × ℕ)
shell_callback =
    (b'e' ∷ b'c' ∷ b'h' ∷ b'o' ∷ [], 2)
    ∷ (b's' ∷ b'e' ∷ b't' ∷ [], 3)
    ∷ (b'h' ∷ b'e' ∷ b'l' ∷ b'p' ∷ [], 1)
    ∷ (b'v' ∷ b'a' ∷ b'r' ∷ b's' ∷ [], 1)
    ∷ (b'e' ∷ b'x' ∷ b'i' ∷ b't' ∷ [], 1)
    ∷ (b't' ∷ b'o' ∷ b'u' ∷ b'c' ∷ b'h' ∷ [], 2)
    ∷ (b'm' ∷ b'k' ∷ b'd' ∷ b'i' ∷ b'r' ∷ [], 2)
    ∷ (b't' ∷ b'r' ∷ b'e' ∷ b'e' ∷ [], 1)
    ∷ (b'e' ∷ b'd' ∷ b'i' ∷ b't' ∷ [], 2)
    ∷ (b'c' ∷ b'a' ∷ b't' ∷ [], 2)
    ∷ (b'l' ∷ b's' ∷ [], 1)
    ∷ (b'p' ∷ b'w' ∷ b'd' ∷ [], 1)
    ∷ (b'c' ∷ b'd' ∷ [], 2)
    ∷ []

-- What `shell_execute` does: nothing, a message about the command, a call of the command, or the
-- message that there is no such command.
pub data Executed : Type 0 where
  nothing : Executed
  not_enough_arguments : ℕ → Executed
  call : ℕ → Executed
  invalid_command : Executed

-- The loop over the table, at place `i`.
unfoldable pub execute_loop : ℕ → List ShellCommand → ℕ → ℕ → ℕ → Memory → Option Executed
execute_loop fuel [] i name argc m = some invalid_command
execute_loop fuel (c ∷ commands) i name argc m = strcmp fuel name c.command m >>= λ r.
    let rest = execute_loop fuel commands (i + 1) name argc m in
    if r == 0
    then if ltb argc c.min_args then some (not_enough_arguments i) else some (call i)
    else rest

-- `argc` is an `int` that is not negative, and `name` is `argv[0]`.
unfoldable pub shell_execute : ℕ → List ShellCommand → ℕ → ℕ → Memory → Option Executed
unfolding execute_loop
shell_execute fuel commands name argc m =
    if ltb argc 1 then some nothing else execute_loop fuel commands 0 name argc m
