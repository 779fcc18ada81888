-- ===== src/Scheduler/RoundRobin/Tests.antt =====
-- Three tasks: one runs and two wait.
use almorina_os.Prelude.{
  ℕ, ◌<◌, ◌≡◌, ◌⊎◌, sym, ◌∙◌, refl, arith, true, false, Option, none, some, [], ◌∷◌, ◌==◌,
  if◌then◌else◌, List, some_inj,
}
use almorina_os.Scheduler.{
  Scheduler, Pcb, TaskState, ready, running, waiting_for_lock, max_tasks, schedule,
}
use almorina_os.Scheduler.Process.{pcb_alloc}
use almorina_os.Scheduler.Tasks.{block_task, terminate_task}
use almorina_os.Scheduler.RoundRobin.Queue.{IsQueue, Keeps, schedule-IsQueue}
use almorina_os.Scheduler.RoundRobin.Rounds.{schedules, schedules-get_elem?}
use almorina_os.Scheduler.RoundRobin.Arrival.{pcb_alloc-IsQueue}
use almorina_os.Scheduler.RoundRobin.Block.{block_task-IsQueue}
use almorina_os.Scheduler.RoundRobin.Ending.{terminate_task-IsQueue}
use almorina_os.Scheduler.RoundRobin.Runs.{
  IsServed, Reach, switched, gone, here, next, switch, block, Reach-IsServed,
}

abbrev task : Option ℕ → TaskState → Pcb
task link state = record {
  tos = 8000;
  virt_addr = 0;
  next = link;
  state = state;
  used = true;
  switch_time = 0;
}

abbrev unused : Pcb
unused = record {
  tos = 0;
  virt_addr = 0;
  next = none;
  state = ready;
  used = false;
  switch_time = 0;
}

abbrev three_slots : ℕ → Pcb
three_slots i =
    if i == 0
    then task none running
    else if i == 1
    then task (some 2) ready
    else if i == 2
    then task none ready
    else unused

abbrev three_tasks : Scheduler
three_tasks = record {
  pcb = three_slots;
  current = some 0;
  start_of_ready_list = some 1;
  end_of_ready_list = some 2;
  terminated_task_list = none;
  idle_task_p = none;
  is_first = false;
  irq_disable_counter = 0;
  postponed_tasks_counter = 0;
  postponed_tasks_flag = false;
  interrupts = true;
}

three_tasks-IsQueue : IsQueue three_tasks 0 1 (2 ∷ [])
three_tasks-IsQueue = record {
  last = 2;
  current = refl;
  start = refl;
  end = refl;
  linked = (refl, refl);
  runs = refl;
  waits = (refl, (refl, tt));
  distinct = ((omega arith, (omega arith, tt)), ((omega arith, tt), (tt, tt)));
  no_idle = refl;
  free = refl;
}

schedule-IsQueue_example :
    (s' : Scheduler) × (schedule 8000 5 three_tasks ≡ some s')
    × IsQueue s' 1 2 (0 ∷ [])
    × ((x : ℕ) → (s'.pcb x).used ≡ (three_slots x).used)
    × Keeps three_tasks s'
schedule-IsQueue_example = schedule-IsQueue 8000 5 0 1 2 [] three_tasks three_tasks-IsQueue

schedules-get_elem?_example :
    (s' : Scheduler) × (schedules ((8000, 5) ∷ (7000, 6) ∷ []) three_tasks ≡ some s')
    × (s'.current ≡ some 2)
schedules-get_elem?_example =
    schedules-get_elem? ((8000, 5) ∷ (7000, 6) ∷ []) 1 0 1 2 2 [] three_tasks three_tasks-IsQueue
      refl (omega arith)

pcb_alloc-IsQueue_example :
    ((pcb_alloc three_tasks ≡ some (none, three_tasks))
      × ((j : ℕ) → j < max_tasks → (three_slots j).used ≡ true))
    ⊎ ((i : ℕ) × (s' : Scheduler) × (pcb_alloc three_tasks ≡ some (some i, s'))
        × ((three_slots i).used ≡ false)
        × IsQueue s' 0 1 (2 ∷ i ∷ [])
        × (i < max_tasks)
        × ((x : ℕ) → (s'.pcb x).used ≡ (if x == i then true else (three_slots x).used))
        × Keeps three_tasks s')
pcb_alloc-IsQueue_example =
    pcb_alloc-IsQueue 0 1 (2 ∷ []) three_tasks three_tasks-IsQueue (refl, (refl, (refl, tt))) refl

block_task-IsQueue_example :
    (s' : Scheduler) × (block_task 8000 5 waiting_for_lock three_tasks ≡ some s')
    × IsQueue s' 1 2 []
    × ((s'.pcb 0).state ≡ waiting_for_lock)
    × ((x : ℕ) → (s'.pcb x).used ≡ (three_slots x).used)
    × Keeps three_tasks s'
block_task-IsQueue_example =
    block_task-IsQueue 8000 5 0 1 2 [] waiting_for_lock three_tasks refl three_tasks-IsQueue

terminate_task-IsQueue_example :
    (s' : Scheduler) × (terminate_task 2 8000 5 three_tasks ≡ some s')
    × IsQueue s' 1 2 []
    × ((x : ℕ) → (s'.pcb x).used ≡ (if x == 0 then false else (three_slots x).used))
    × (s'.is_first ≡ false)
    × (s'.terminated_task_list ≡ none)
terminate_task-IsQueue_example =
    terminate_task-IsQueue 0 8000 5 0 1 2 [] three_tasks (omega arith) three_tasks-IsQueue refl

three_tasks-IsServed : IsServed three_tasks 0 1 (2 ∷ [])
three_tasks-IsServed = record {
  queue = three_tasks-IsQueue;
  used = (refl, (refl, (refl, tt)));
  inside = (omega arith, (omega arith, (omega arith, tt)));
  later = refl;
  none_ended = refl;
}

-- A switch, and then the task that runs waits for a lock.
abbrev after_switch : Scheduler
after_switch = schedule-IsQueue_example.0

after_block :
    (s' : Scheduler) × (block_task 8000 6 waiting_for_lock after_switch ≡ some s')
    × IsQueue s' 2 0 []
    × ((s'.pcb 1).state ≡ waiting_for_lock)
    × ((x : ℕ) → (s'.pcb x).used ≡ (after_switch.pcb x).used)
    × Keeps after_switch s'
after_block =
    block_task-IsQueue 8000 6 1 2 0 [] waiting_for_lock after_switch refl schedule-IsQueue_example.2

two_events : Reach three_tasks (switched ∷ gone ∷ []) (after_block.0)
two_events =
    let queue = schedule-IsQueue_example.2 in
    next (switch 8000 5 (λ e. omega (arith, some_inj e)) schedule-IsQueue_example.1) (
      next
        (block 8000 6 waiting_for_lock refl
          (λ e. omega (arith, some_inj (sym queue.start ∙ e ∙ queue.end), queue.linked.1))
          after_block.1)
        here)

Reach-IsServed_example :
    (c : ℕ) × (h : ℕ) × (q : List ℕ) × IsServed (after_block.0) c h q × (c ∷ (h ∷ q) ≡ 2 ∷ 0 ∷ [])
Reach-IsServed_example = Reach-IsServed 0 1 (2 ∷ []) three_tasks-IsServed two_events
