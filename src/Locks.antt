-- ===== src/Locks.antt =====
-- Semaphores, src/c-code/locks.c: their creation, which is all that the file has. They stand in a
-- store by address. An `int` is its 32-bit pattern, and a task is an index of `pcbArray`.
pub mod Create
mod Tests
use almorina_os.Prelude.{ℕ, Option, none, some, ◌==◌, if◌then◌else◌}
use almorina_os.Prelude.Store.{update}
use almorina_os.Prelude.Fault.{◌>>=◌}
use almorina_os.Heap.{Heap, malloc}

-- `semaphore_t`
pub record Semaphore : Type 0 where
  pub max_count : ℕ
  pub current_count : ℕ
  pub first_waiting_task : Option ℕ
  pub last_waiting_task : Option ℕ

-- sizeof(semaphore_t)
abbrev pub semaphore_size : ℕ
semaphore_size = 24

pub record Locks : Type 0 where
  pub heap : Heap
  pub semaphore : ℕ → Semaphore

-- The fields of a new semaphore.
abbrev pub created : ℕ → Semaphore
created max_count = record {
  max_count = max_count;
  current_count = 0;
  first_waiting_task = none;
  last_waiting_task = none;
}

-- The semaphore's address, or 0.
unfoldable pub semaphore_create : ℕ → ℕ → Locks → Option (ℕ × Locks)
semaphore_create fuel max_count s = malloc fuel semaphore_size s.heap >>= λ r.
    let s' = record s { heap = r.1 } in
    if r.0 == 0
    then some (0, s')
    else some (r.0, record s' { semaphore = update s'.semaphore r.0 (created max_count) })

unfoldable pub mutex_create : ℕ → Locks → Option (ℕ × Locks)
unfolding semaphore_create
mutex_create fuel s = semaphore_create fuel 1 s
