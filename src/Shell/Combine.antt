-- ===== src/Shell/Combine.antt =====
-- `shell_combine_strings` of src/c-code/shell.c, which joins strings with spaces. The array of strings
-- is the list of its pointers; the result of `malloc` is not tested.
pub mod Joined
mod Tests
use almorina_os.Prelude.{ℕ, ◌+◌, Option, some, List, [], ◌∷◌}
use almorina_os.Prelude.Words.{u32, add64, sub64}
use almorina_os.Prelude.Store.{update}
use almorina_os.Prelude.Fault.{◌>>=◌}
use almorina_os.Cstring.{Memory, strlen, strncpy}
use almorina_os.Heap.{Heap, malloc}
use almorina_os.Fs.{int_to_u64}

-- The first loop.
unfoldable pub total_loop : ℕ → List ℕ → ℕ → Memory → Option ℕ
total_loop fuel [] total m = some total
total_loop fuel (a ∷ args) total m =
    strlen fuel a m >>= λ len. total_loop fuel args (add64 total (int_to_u64 (u32 (len + 1)))) m

-- The second loop, at `pos`.
unfoldable pub copy_loop : ℕ → List ℕ → ℕ → ℕ → Memory → Option Memory
copy_loop fuel [] combined pos m = some m
copy_loop fuel (a ∷ args) combined pos m = strlen fuel a m >>= λ len.
    let str_len = int_to_u64 len in
    strncpy fuel (add64 combined pos) a (u32 str_len) m >>= λ m'.
    let m'' = update m' (add64 combined (add64 pos str_len)) b' ' in
    copy_loop fuel args combined (add64 pos (add64 str_len 1)) m''

-- The string's address, the memory and the heap.
unfoldable pub shell_combine_strings : ℕ → List ℕ → Memory → Heap → Option (ℕ × Memory × Heap)
shell_combine_strings fuel args m h = total_loop fuel args 0 m >>= λ sum.
    let total = sub64 sum 1 in
    malloc fuel (add64 total 1) h >>= λ r.
    copy_loop fuel args r.0 0 m >>= λ m'. some (r.0, update m' (add64 r.0 total) 0, r.1)
