-- ===== src/Scheduler.antt =====
-- The round-robin scheduler, src/c-code/scheduler.c, with `switch_to_task` of
-- src/assembly/task.asm. A `PCB_t*` is an index of `pcbArray`, or null; an index from 256 on stands
-- for an address outside the array. A null dereference is `none`. A `double` is its bit pattern.
-- `interrupts` is the processor's interrupt flag, which `cli` clears and `sti` sets. What a caller does
-- behind a switch stands here at once behind it; on the machine the task does it when it is resumed.
pub mod Tasks
pub mod Process
pub mod Lock
pub mod Slots
pub mod Cleaner
pub mod Ready
pub mod Start
pub mod RoundRobin
mod Tests
use almorina_os.Prelude.{
  ℕ, zero, suc, ◌+◌, ◌-◌, ◌*◌, ◌%◌, ◌^◌, Bool, true, false, not, ◌&&◌, Option, none, some, ◌==◌,
  if◌then◌else◌,
}
use almorina_os.Prelude.Words.{u32}
use almorina_os.Prelude.Store.{update}
use almorina_os.Prelude.Fault.{◌>>=◌}

abbrev pub max_tasks : ℕ
max_tasks = 256

-- `enum TaskState`
pub data TaskState : Type 0 where
  ready running paused terminated waiting_for_lock : TaskState

-- `PCB_t`
pub record Pcb : Type 0 where
  pub tos : ℕ
  pub virt_addr : ℕ
  pub next : Option ℕ
  pub state : TaskState
  pub used : Bool
  pub switch_time : ℕ

-- The globals of the file. A counter is an `int` by its 32-bit pattern.
pub record Scheduler : Type 0 where
  pub pcb : ℕ → Pcb
  pub current : Option ℕ
  pub start_of_ready_list : Option ℕ
  pub end_of_ready_list : Option ℕ
  pub terminated_task_list : Option ℕ
  pub idle_task_p : Option ℕ
  pub is_first : Bool
  pub irq_disable_counter : ℕ
  pub postponed_tasks_counter : ℕ
  pub postponed_tasks_flag : Bool
  pub interrupts : Bool

-- The address of the function `idle_task`, which is no task.
abbrev pub idle_task : ℕ
idle_task = max_tasks

abbrev pub is_state : TaskState → TaskState → Bool
is_state ready ready = true
is_state running running = true
is_state paused paused = true
is_state terminated terminated = true
is_state waiting_for_lock waiting_for_lock = true
is_state _ _ = false

abbrev pub same_task : Option ℕ → Option ℕ → Bool
same_task none none = true
same_task (some a) (some b) = a == b
same_task _ _ = false

abbrev pub increment : ℕ → ℕ
increment n = u32 (n + 1)

abbrev pub decrement : ℕ → ℕ
decrement n = u32 (n + 2 ^ 32 - 1)

abbrev pub put : ℕ → Pcb → Scheduler → Scheduler
put i p s = record s { pcb = update s.pcb i p }

abbrev pub set_state : ℕ → TaskState → Scheduler → Scheduler
set_state i t s = let p = s.pcb i in put i (record p { state = t }) s

-- `task->next = next`
abbrev pub set_next : Option ℕ → Option ℕ → Scheduler → Option Scheduler
set_next none next s = none
set_next (some i) next s = let p = s.pcb i in some (put i (record p { next = next }) s)

unfoldable pub lock_scheduler : Scheduler → Scheduler
lock_scheduler s = record s {
  interrupts = false;
  irq_disable_counter = increment s.irq_disable_counter;
}

unfoldable pub unlock_scheduler : Scheduler → Scheduler
unlock_scheduler s =
    let n = decrement s.irq_disable_counter in
    record s { irq_disable_counter = n; interrupts = if n == 0 then true else s.interrupts }

unfoldable pub lock_task : Scheduler → Scheduler
lock_task s = record s {
  interrupts = false;
  irq_disable_counter = increment s.irq_disable_counter;
  postponed_tasks_counter = increment s.postponed_tasks_counter;
}

-- The running task that `switch_to_task` puts back on the ready list.
unfoldable pub requeue : ℕ → Scheduler → Option Scheduler
requeue cur s =
    if is_state (s.pcb cur).state running
    then (set_next s.end_of_ready_list (some cur) (set_state cur ready s) >>= λ s'.
        some (record s' { end_of_ready_list = some cur }))
    else some s

unfoldable pub resume : ℕ → ℕ → Scheduler → Scheduler
resume task now s =
    let p = s.pcb task in
    put task (record p { switch_time = now; state = running }) (record s { current = some task })

-- The routine of task.asm: `rsp` is the stack pointer that it saves, and `now` what it takes for
-- the time. It finds the task in `rax`; that its caller put it there is taken for granted. Where tasks
-- are postponed, it sets the flag, and its `ret` then finds a word that it has pushed in place of the
-- return address: it does not come back, which is `none`.
unfoldable pub switch_to_task : ℕ → ℕ → Option ℕ → Scheduler → Option Scheduler
unfolding requeue resume
switch_to_task rsp now task s = elim s.current [
  | none ↦ none
  | some cur ↦
      let p = s.pcb cur in
      let saved = put cur (record p { tos = rsp }) s in
      if s.postponed_tasks_counter == 0
      then (requeue cur saved >>= λ s'. task >>= λ t. some (resume t now s'))
      else none
]

-- The task that `schedule` takes off the list, and the list after it.
unfoldable pub pick : ℕ → Scheduler → Option (Option ℕ × Scheduler)
pick head s =
    let rest = record s { start_of_ready_list = (s.pcb head).next } in
    if same_task (some head) s.idle_task_p
    then elim rest.start_of_ready_list [
      | some second ↦ set_next s.idle_task_p (rest.pcb second).next rest >>= λ s'.
          some (some second, record s' { start_of_ready_list = some idle_task })
      | none ↦ elim s.current [
        | none ↦ none
        | some cur ↦ some (if is_state (s.pcb cur).state running then none else some head, rest)
      ]
    ]
    else some (some head, rest)

-- The end of `schedule`; no task means that it has returned.
unfoldable pub start_picked : ℕ → ℕ → Option ℕ × Scheduler → Option Scheduler
start_picked rsp now (none, s) = some s
start_picked rsp now (some t, s) =
    if is_state (s.pcb t).state terminated then some s else switch_to_task rsp now (some t) s

unfoldable pub schedule : ℕ → ℕ → Scheduler → Option Scheduler
unfolding pick start_picked
schedule rsp now s =
    if s.postponed_tasks_counter == 0
    then elim s.start_of_ready_list [
      | none ↦ some s
      | some head ↦ pick head s >>= start_picked rsp now
    ]
    else some (record s { postponed_tasks_flag = true })

unfoldable pub unlock_task : ℕ → ℕ → Scheduler → Option Scheduler
unfolding unlock_scheduler schedule
unlock_task rsp now s =
    let n = decrement s.postponed_tasks_counter in
    let s' = record s { postponed_tasks_counter = n } in
    (if n == 0 && s'.postponed_tasks_flag
      then schedule rsp now (record s' { postponed_tasks_flag = false })
      else some s')
    >>= λ t. some (unlock_scheduler t)
