-- ===== src/Shell/Execute/Dispatch.antt =====
-- The command that the first word names.
use almorina_os.Prelude.{
  ℕ, ◌+◌, ◌<◌, ◌≡◌, inl, inr, refl, Bool-cases, some, List, [], ◌∷◌, length, ltb, if◌then◌else◌,
}
use almorina_os.Cstring.{Memory}
use almorina_os.Cstring.Bytes.{IsString}
use almorina_os.Cstring.Search.{AreBytes}
use almorina_os.Cstring.Same.{same, strcmp-same}
use almorina_os.Shell.Execute.{
  ShellCommand, Executed, nothing, not_enough_arguments, call, invalid_command, shell_callback,
  execute_loop, shell_execute,
}

-- The table in memory has these names and numbers of arguments.
abbrev pub IsTable : Memory → List ShellCommand → List (List ℕ × ℕ) → Type 0
IsTable m [] [] = Unit {0}
IsTable m (c ∷ commands) ((name, min_args) ∷ table) =
    (IsString m c.command name × AreBytes name × (c.min_args ≡ min_args)) × IsTable m commands table
IsTable m _ _ = ⊥

-- The first entry with the name decides.
abbrev pub dispatch : List (List ℕ × ℕ) → ℕ → List ℕ → ℕ → Executed
dispatch [] i word argc = invalid_command
dispatch ((name, min_args) ∷ table) i word argc =
    let rest = dispatch table (i + 1) word argc in
    if same word name then if ltb argc min_args then not_enough_arguments i else call i else rest

execute_loop-dispatch :
    (table : List (List ℕ × ℕ)) (commands : List ShellCommand) (word : List ℕ)
    (fuel i name argc : ℕ) (m : Memory)
    → IsTable m commands table
    → length word < fuel
    → AreBytes word
    → IsString m name word
    → execute_loop fuel commands i name argc m ≡ some (dispatch table i word argc)
unfolding execute_loop
execute_loop-dispatch [] [] word fuel i name argc m is enough bytes here = refl
execute_loop-dispatch [] (c ∷ commands) word fuel i name argc m is enough bytes here = absurd is
execute_loop-dispatch (t ∷ table) [] word fuel i name argc m is enough bytes here = absurd is
execute_loop-dispatch ((n, k) ∷ table) (c ∷ commands) word fuel i name argc m
      ((is, small, least), others) enough bytes here =
    let (r, runs, test) = strcmp-same word n fuel name c.command m enough bytes small here is in
    let rest =
      execute_loop-dispatch table commands word fuel (i + 1) name argc m others enough bytes here in
    elim (Bool-cases (same word n)) [
      | inl eq ↦ elim (Bool-cases (ltb argc k)) [
        | inl few ↦ rw (runs, test, eq, least, few) refl
        | inr many ↦ rw (runs, test, eq, least, many) refl
      ]
      | inr ne ↦ rw (runs, test, ne, rest) refl
    ]

pub execute-table :
    (table : List (List ℕ × ℕ)) (commands : List ShellCommand) (word : List ℕ) (fuel name argc : ℕ)
    (m : Memory)
    → IsTable m commands table
    → length word < fuel
    → AreBytes word
    → IsString m name word
    → shell_execute fuel commands name argc m
      ≡ some (if ltb argc 1 then nothing else dispatch table 0 word argc)
unfolding shell_execute
execute-table table commands word fuel name argc m is enough bytes here =
    elim (Bool-cases (ltb argc 1)) [
      | inl none_given ↦ rw none_given refl
      | inr given ↦
          rw given
            (execute_loop-dispatch table commands word fuel 0 name argc m is enough bytes here)
    ]

-- With enough fuel, `shell_execute` decides by its first word alone, for a word of bytes: with no
-- words it does nothing; the first entry of `shell_callback` that has the word as its name is called
-- when there are as many words as it asks for, and reported otherwise; a word that no entry has is
-- no command.
pub shell_execute-dispatch :
    (commands : List ShellCommand) (word : List ℕ) (fuel name argc : ℕ) (m : Memory)
    → IsTable m commands shell_callback
    → length word < fuel
    → AreBytes word
    → IsString m name word
    → shell_execute fuel commands name argc m
      ≡ some (if ltb argc 1 then nothing else dispatch shell_callback 0 word argc)
shell_execute-dispatch = execute-table shell_callback
