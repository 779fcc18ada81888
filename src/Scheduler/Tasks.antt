-- ===== src/Scheduler/Tasks.antt =====
-- What happens to a task once it runs: it blocks, becomes ready again, ends, and has its slot given
-- back. `idle_task` and the printing test process of scheduler.c are left out.
use almorina_os.Prelude.{ℕ, zero, suc, false, ◌||◌, Option, none, some, leb, if◌then◌else◌}
use almorina_os.Prelude.Fault.{◌>>=◌}
use almorina_os.Scheduler.{
  TaskState, Scheduler, ready, terminated, max_tasks, put, set_state, set_next, same_task,
  lock_scheduler, unlock_scheduler, lock_task, unlock_task, switch_to_task, schedule,
}

-- A write of `currentPCB->state`.
abbrev pub set_current_state : TaskState → Scheduler → Option Scheduler
set_current_state t s = s.current >>= λ cur. some (set_state cur t s)

unfoldable pub block_task : ℕ → ℕ → TaskState → Scheduler → Option Scheduler
unfolding lock_scheduler unlock_scheduler schedule
block_task rsp now reason s = set_current_state reason (lock_scheduler s) >>= λ s'.
    schedule rsp now s' >>= λ t. some (unlock_scheduler t)

-- The new task is hung on the first of the list.
unfoldable pub add_ready_process : Option ℕ → Scheduler → Option Scheduler
add_ready_process none s = some s
add_ready_process (some i) s =
    let s' = set_state i ready s in
    elim s.start_of_ready_list [
      | none ↦ some (record s' { start_of_ready_list = some i; end_of_ready_list = some i })
      | some head ↦
          set_next (some head) (some i) s' >>= λ t. some (record t { end_of_ready_list = some i })
    ]

unfoldable pub unblock_task : ℕ → ℕ → Option ℕ → Scheduler → Option Scheduler
unfolding lock_scheduler unlock_scheduler add_ready_process switch_to_task
unblock_task rsp now task s =
    let locked = lock_scheduler s in
    (if same_task locked.start_of_ready_list none || same_task locked.current locked.idle_task_p
      then switch_to_task rsp now task locked
      else add_ready_process task locked)
    >>= λ t. some (unlock_scheduler t)

-- A null pointer lies in front of the array.
unfoldable pub pcb_free : Option ℕ → Scheduler → Scheduler
pcb_free none s = s
pcb_free (some i) s =
    let p = s.pcb i in if leb max_tasks i then s else put i (record p { used = false }) s

unfoldable pub free_task : Option ℕ → Scheduler → Scheduler
unfolding pcb_free
free_task task s = pcb_free task s

unfoldable pub clean_loop : ℕ → Scheduler → Option Scheduler
clean_loop zero s = none
clean_loop (suc fuel) s = elim s.terminated_task_list [
  | none ↦ some s
  | some i ↦
      clean_loop fuel (free_task (some i) (record s { terminated_task_list = (s.pcb i).next }))
]

unfoldable pub tasks_cleaner : ℕ → ℕ → ℕ → Scheduler → Option Scheduler
tasks_cleaner fuel rsp now s = clean_loop fuel (lock_task s) >>= unlock_task rsp now

-- The current task heads the list of terminated tasks.
unfoldable pub retire_current : Scheduler → Option Scheduler
retire_current s = set_next s.current s.terminated_task_list s >>= λ t.
    some (record t { terminated_task_list = t.current })

unfoldable pub terminate_task : ℕ → ℕ → ℕ → Scheduler → Option Scheduler
terminate_task fuel rsp now s = retire_current (lock_scheduler (lock_task s)) >>= λ a.
    block_task rsp now terminated (unlock_scheduler a) >>= λ b.
    tasks_cleaner fuel rsp now b >>= unlock_task rsp now
