-- ===== src/Scheduler/Tests.antt =====
-- A scheduler that runs its first process.
use almorina_os.Prelude.{ℕ, ◌<◌, ◌≡◌, ◌⊎◌, refl, arith, true, false, none, some, [], ◌∷◌}
use almorina_os.Prelude.Fault.{◌>>=◌}
use almorina_os.Scheduler.{
  Scheduler, Pcb, running, lock_task, unlock_task, unlock_scheduler, schedule,
}
use almorina_os.Scheduler.Tasks.{clean_loop}
use almorina_os.Scheduler.Lock.{lock, unlock, run, IsMasked, run-IsMasked}
use almorina_os.Scheduler.Cleaner.{Cleaned, clean_loop_lem}
use almorina_os.Scheduler.Start.{schedule-postponed}

abbrev first_pcb : Pcb
first_pcb = record {
  tos = 0;
  virt_addr = 0;
  next = none;
  state = running;
  used = true;
  switch_time = 0;
}

abbrev one_process : Scheduler
one_process = record {
  pcb = λ _. first_pcb;
  current = some 0;
  start_of_ready_list = some 0;
  end_of_ready_list = some 0;
  terminated_task_list = some 3;
  idle_task_p = none;
  is_first = true;
  irq_disable_counter = 0;
  postponed_tasks_counter = 0;
  postponed_tasks_flag = false;
  interrupts = true;
}

abbrev one : ℕ
one = 1

run-IsMasked_example :
    ((run (lock ∷ lock ∷ unlock ∷ []) one_process).irq_disable_counter ≡ 1)
    × IsMasked (run (lock ∷ lock ∷ unlock ∷ []) one_process)
    × ((0 < 0) ⊎ (true ≡ true)
        → one ≡ 0
        → (run (lock ∷ lock ∷ unlock ∷ []) one_process).interrupts ≡ true)
run-IsMasked_example =
    run-IsMasked (lock ∷ lock ∷ unlock ∷ []) one_process 1 (omega arith, refl) (omega arith)
      (λ held. absurd (held refl))

clean_loop_lem_example :
    (t : Scheduler) × (clean_loop 2 one_process ≡ some t) × Cleaned (3 ∷ []) one_process t
clean_loop_lem_example = clean_loop_lem 2 (3 ∷ []) one_process (refl, tt) (omega arith)

schedule-postponed_example : (schedule 8000 5 (lock_task one_process) >>= unlock_task 8000 6) ≡ (
    schedule 8000 6 (record one_process { interrupts = false; irq_disable_counter = 1 }) >>= λ t.
    some (unlock_scheduler t))
schedule-postponed_example = schedule-postponed 8000 5 8000 6 one_process refl refl
