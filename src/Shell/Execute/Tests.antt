-- ===== src/Shell/Execute/Tests.antt =====
-- The table's names, twenty bytes apart from 1000 on, and the word "cd" at 100.
use almorina_os.Prelude.{
  ℕ, suc, true, inl, inr, length, ◌+◌, ◌-◌, ◌/◌, ◌%◌, ◌≡◌, refl, arith, some, List, [], ◌∷◌, get_or,
  ltb, ◌==◌, if◌then◌else◌,
}
use almorina_os.Cstring.{Memory}
use almorina_os.Heap.{Heap, MemSegment, malloc, malloc_loop, split}
use almorina_os.Shell.{Parsed}
use almorina_os.Shell.Parse.{AreStrings}
use almorina_os.Shell.Main.{read_command}
use almorina_os.Shell.Main.Typed.{read_command_lem}
use almorina_os.Shell.Execute.{ShellCommand, nothing, shell_callback, shell_execute}
use almorina_os.Shell.Execute.Dispatch.{IsTable, dispatch, shell_execute-dispatch}

-- A byte of a name, or 0 behind it.
abbrev table_memory : Memory
table_memory q =
    if q == 100
    then b'c'
    else if q == 101
    then b'd'
    else if ltb q 1000
    then 0
    else get_or (get_or shell_callback ((q - 1000) / 20) ([], 0)).0 ((q - 1000) % 20) 0

abbrev commands_from : ℕ → List (List ℕ × ℕ) → List ShellCommand
commands_from a [] = []
commands_from a ((name, min_args) ∷ table) =
    record { command = a; min_args = min_args } ∷ commands_from (a + 20) table

abbrev word : List ℕ
word = b'c' ∷ b'd' ∷ []

shell_callback-IsTable : IsTable table_memory (commands_from 1000 shell_callback) shell_callback
shell_callback-IsTable = (
  (
    (refl, omega arith, (refl, omega arith, (refl, omega arith, (refl, omega arith, refl)))),
    (omega arith, (omega arith, (omega arith, (omega arith, tt)))),
    refl,
  ),
  (
    (
      (refl, omega arith, (refl, omega arith, (refl, omega arith, refl))),
      (omega arith, (omega arith, (omega arith, tt))),
      refl,
    ),
    (
      (
        (refl, omega arith, (refl, omega arith, (refl, omega arith, (refl, omega arith, refl)))),
        (omega arith, (omega arith, (omega arith, (omega arith, tt)))),
        refl,
      ),
      (
        (
          (refl, omega arith, (refl, omega arith, (refl, omega arith, (refl, omega arith, refl)))),
          (omega arith, (omega arith, (omega arith, (omega arith, tt)))),
          refl,
        ),
        (
          (
            (
              refl,
              omega arith,
              (refl, omega arith, (refl, omega arith, (refl, omega arith, refl))),
            ),
            (omega arith, (omega arith, (omega arith, (omega arith, tt)))),
            refl,
          ),
          (
            (
              (
                refl,
                omega arith,
                (
                  refl,
                  omega arith,
                  (refl, omega arith, (refl, omega arith, (refl, omega arith, refl))),
                ),
              ),
              (omega arith, (omega arith, (omega arith, (omega arith, (omega arith, tt))))),
              refl,
            ),
            (
              (
                (
                  refl,
                  omega arith,
                  (
                    refl,
                    omega arith,
                    (refl, omega arith, (refl, omega arith, (refl, omega arith, refl))),
                  ),
                ),
                (omega arith, (omega arith, (omega arith, (omega arith, (omega arith, tt))))),
                refl,
              ),
              (
                (
                  (
                    refl,
                    omega arith,
                    (refl, omega arith, (refl, omega arith, (refl, omega arith, refl))),
                  ),
                  (omega arith, (omega arith, (omega arith, (omega arith, tt)))),
                  refl,
                ),
                (
                  (
                    (
                      refl,
                      omega arith,
                      (refl, omega arith, (refl, omega arith, (refl, omega arith, refl))),
                    ),
                    (omega arith, (omega arith, (omega arith, (omega arith, tt)))),
                    refl,
                  ),
                  (
                    (
                      (refl, omega arith, (refl, omega arith, (refl, omega arith, refl))),
                      (omega arith, (omega arith, (omega arith, tt))),
                      refl,
                    ),
                    (
                      (
                        (refl, omega arith, (refl, omega arith, refl)),
                        (omega arith, (omega arith, tt)),
                        refl,
                      ),
                      (
                        (
                          (refl, omega arith, (refl, omega arith, (refl, omega arith, refl))),
                          (omega arith, (omega arith, (omega arith, tt))),
                          refl,
                        ),
                        (
                          (
                            (refl, omega arith, (refl, omega arith, refl)),
                            (omega arith, (omega arith, tt)),
                            refl,
                          ),
                          tt,
                        ),
                      ),
                    ),
                  ),
                ),
              ),
            ),
          ),
        ),
      ),
    ),
  ),
)

shell_execute-dispatch_example :
    shell_execute 9 (commands_from 1000 shell_callback) 100 2 table_memory
    ≡ some (if ltb 2 1 then nothing else dispatch shell_callback 0 word 2)
shell_execute-dispatch_example =
    shell_execute-dispatch (commands_from 1000 shell_callback) word 9 100 2 table_memory
      shell_callback-IsTable (omega arith) (omega arith, (omega arith, tt))
      (refl, omega arith, (refl, omega arith, refl))

abbrev segment : MemSegment
segment = record { len = 1000; free = true; next = 0 }

abbrev free_heap : Heap
free_heap = record { heap = 50000; free_seg = 50000; cell = λ _. segment }

two_words : (fuel : ℕ) → malloc (suc fuel) 16 free_heap ≡ some (50024, split 50000 16 free_heap)
unfolding malloc malloc_loop split
two_words fuel = refl

-- The keys "cx", a backspace, "d y" and a newline, for a line at 5000.
abbrev cd_keys : List ℕ
cd_keys = b'c' ∷ b'x' ∷ 8 ∷ b'd' ∷ b' ' ∷ b'y' ∷ 10 ∷ []

read_command_lem_example :
    (r : Parsed) × (read_command 201
        (commands_from 1000 shell_callback)
        (0 ∷ cd_keys)
        5000
        table_memory
        free_heap
      ≡ some (dispatch shell_callback 0 word r.argc, r, []))
    × (r.argc ≡ length r.args)
    × AreStrings r.mem r.args (word ∷ (b'y' ∷ []) ∷ [])
read_command_lem_example =
    read_command_lem 0 cd_keys [] (b'y' ∷ b' ' ∷ b'd' ∷ b'c' ∷ []) 201 5000 50024
      (commands_from 1000 shell_callback) table_memory free_heap (split 50000 16 free_heap)
      (omega arith) (omega arith)
      (
        inl (omega arith),
        (
          inl (omega arith),
          (
            inr (omega arith),
            (inl (omega arith), (inl (omega arith), (inl (omega arith), (inl (omega arith), tt)))),
          ),
        ),
      )
      refl
      (
        (omega arith, omega arith, omega arith),
        (
          (omega arith, omega arith, omega arith),
          ((omega arith, omega arith, omega arith), ((omega arith, omega arith, omega arith), tt)),
        ),
      )
      refl shell_callback-IsTable
      (
        inl (omega arith),
        (
          inl (omega arith),
          (
            inl (omega arith),
            (
              inl (omega arith),
              (
                inl (omega arith),
                (
                  inl (omega arith),
                  (
                    inl (omega arith),
                    (
                      inl (omega arith),
                      (
                        inl (omega arith),
                        (
                          inl (omega arith),
                          (inl (omega arith), (inl (omega arith), (inl (omega arith), tt))),
                        ),
                      ),
                    ),
                  ),
                ),
              ),
            ),
          ),
        ),
      )
      (two_words 200)
