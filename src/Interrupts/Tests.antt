-- ===== src/Interrupts/Tests.antt =====
-- The timer at 100 Hz and at 18 Hz, and a tick under three tasks.
use almorina_os.Prelude.{
  ℕ, ◌+◌, ◌-◌, ◌*◌, ◌^◌, ◌≤◌, ◌<◌, ◌≡◌, inl, inr, refl, arith, Bool, Bool-cases, true, false, none,
  some, [], ◌∷◌, ◌==◌, if◌then◌else◌, ltb,
}
use almorina_os.Scheduler.{Scheduler, Pcb, TaskState, ready, running, paused, is_state}
use almorina_os.Scheduler.RoundRobin.Queue.{IsQueue}
use almorina_os.Interrupts.{out_b, io_wait, pit_get_frequency, pit_set_frequency}
use almorina_os.Interrupts.Frequency.{pit_set_frequency_lem, pit_set_frequency-slow}
use almorina_os.Interrupts.Timer.{Doubles, Pit, pit_tick, pit_get_counter}
use almorina_os.Interrupts.Handlers.{pit_tick_handler}
use almorina_os.Interrupts.Ticks.{pit_tick_handler-IsQueue}

pit_set_frequency_lem_example :
    ((low : ℕ) × (high : ℕ) × ((pit_set_frequency 100).1
        ≡ out_b 0x40 low ∷ io_wait ∷ out_b 0x40 high ∷ [])
      × (low < 2 ^ 8)
      × (high < 2 ^ 8)
      × (low + high * 2 ^ 8 ≡ 11931))
    × (100 ≤ pit_get_frequency 11931)
    × (pit_get_frequency 11931 - 100) * 100 < 100
unfolding pit_set_frequency
pit_set_frequency_lem_example = pit_set_frequency_lem 100 (omega arith) (omega arith)

pit_set_frequency-slow_example : 22 ≤ pit_get_frequency (pit_set_frequency 18).0
pit_set_frequency-slow_example = pit_set_frequency-slow 18 (omega arith) (omega arith)

-- Whole numbers in place of `double`, of which a tick counts one.
abbrev whole_numbers : Doubles
whole_numbers = record { add = ◌+◌; divide = λ a b. a; of_int = λ n. n; less = ltb }

abbrev task : TaskState → ℕ → Pcb
task state link = record {
  tos = 8000;
  virt_addr = 0;
  next = if link == 0 then none else some link;
  state = state;
  used = true;
  switch_time = 3;
}

abbrev slots : ℕ → Pcb
slots i = if i == 0 then task running 0 else if i == 1 then task ready 2 else task ready 0

abbrev three_tasks : Scheduler
three_tasks = record {
  pcb = slots;
  current = some 0;
  start_of_ready_list = some 1;
  end_of_ready_list = some 2;
  terminated_task_list = none;
  idle_task_p = none;
  is_first = false;
  irq_disable_counter = 0;
  postponed_tasks_counter = 0;
  postponed_tasks_flag = false;
  interrupts = true;
}

three_tasks-IsQueue : IsQueue three_tasks 0 1 (2 ∷ [])
three_tasks-IsQueue = record {
  last = 2;
  current = refl;
  start = refl;
  end = refl;
  linked = (refl, refl);
  runs = refl;
  waits = (refl, (refl, tt));
  distinct = ((omega arith, (omega arith, tt)), ((omega arith, tt), (tt, tt)));
  no_idle = refl;
  free = refl;
}

abbrev timer : Pit
timer = record { divisor = 11931; counter = 4 }

recent : ℕ → ℕ → Bool
recent now since = ltb (now - since) 10

recent-slots :
    (j : ℕ)
    → (recent (pit_get_counter (pit_tick whole_numbers timer)) (slots j).switch_time ≡ true)
      × (is_state (slots j).state paused ≡ false)
unfolding recent pit_get_counter pit_tick
recent-slots j = elim (Bool-cases (j == 0)) [
  | inl first ↦ rw first (refl, refl)
  | inr later ↦ elim (Bool-cases (j == 1)) [
    | inl second ↦ rw (later, second) (refl, refl)
    | inr third ↦ rw (later, third) (refl, refl)
  ]
]

pit_tick_handler-IsQueue_example :
    (t : Pit) × (s' : Scheduler) × (pit_tick_handler recent whole_numbers 8000 7 timer three_tasks
      ≡ some (t, out_b 0x20 0x20 ∷ [], s'))
    × (t.divisor ≡ timer.divisor)
    × (t.counter ≡ timer.counter + 1)
    × IsQueue s' 1 2 (0 ∷ [])
unfolding pit_tick pit_get_counter pit_get_frequency
pit_tick_handler-IsQueue_example =
    pit_tick_handler-IsQueue recent whole_numbers 8000 7 0 1 2 [] timer three_tasks
      (λ j lo hi. inr (inr (recent-slots j))) three_tasks-IsQueue
