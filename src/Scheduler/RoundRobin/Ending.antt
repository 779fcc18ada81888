-- ===== src/Scheduler/RoundRobin/Ending.antt =====
-- The current task ends.
use mathlib.Core.Path.{subst}
use almorina_os.Prelude.{
  ℕ, suc, ◌<◌, ◌≡◌, ◌≢◌, refl, sym, ap, ◌∙◌, arith, true, false, none, some, List, ◌∷◌, leb, ◌==◌,
  if◌then◌else◌,
}
use almorina_os.Prelude.Fault.{◌>>=◌}
use almorina_os.Scheduler.{
  Scheduler, ready, terminated, max_tasks, put, set_state, schedule, lock_scheduler,
  unlock_scheduler, lock_task, unlock_task,
}
use almorina_os.Scheduler.Tasks.{
  block_task, retire_current, clean_loop, pcb_free, tasks_cleaner, terminate_task,
}
use almorina_os.Scheduler.Cleaner.{freed, freed-list, clean_loop-some}
use almorina_os.Scheduler.RoundRobin.Leave.{
  IsStopped, left, schedule-left, left-IsQueue, left-used, unlock_scheduler-IsQueue,
  unlock_scheduler-pcb, unlock_left-Keeps,
}
use almorina_os.Scheduler.RoundRobin.Queue.{IsQueue, Linked-same, All-map, All-zip}

clean_loop-none :
    (fuel : ℕ) (s : Scheduler) → s.terminated_task_list ≡ none → clean_loop (suc fuel) s ≡ some s
unfolding clean_loop
clean_loop-none fuel s empty = rw empty refl

-- The call of `terminate_task` by a task `c` of the array, with no task to be freed: the switch that
-- `block_task` asks for is put off until the last `unlock_task`, behind the cleaner.
module _ (fuel rsp now c : ℕ) (s : Scheduler) where
  abbrev known : Scheduler
  known = record s { current = some c; postponed_tasks_counter = 0; terminated_task_list = none }

  abbrev retired : Scheduler
  retired =
      let s' = lock_scheduler (lock_task known) in
      let p = s'.pcb c in
      record (put c (record p { next = none }) s') { terminated_task_list = some c }

  abbrev before_cleaner : Scheduler
  before_cleaner =
      let s' = set_state c terminated (lock_scheduler (unlock_scheduler retired)) in
      lock_task (unlock_scheduler (record s' { postponed_tasks_flag = true }))

  abbrev cleaned : Scheduler
  cleaned =
      let p = before_cleaner.pcb c in
      put c (record p { used = false }) (record before_cleaner { terminated_task_list = none })

  abbrev at_schedule : Scheduler
  at_schedule =
      let s' = unlock_scheduler (record cleaned { postponed_tasks_counter = 1 }) in
      record s' { postponed_tasks_counter = 0; postponed_tasks_flag = false }

  terminate_task-clean :
      terminate_task (suc (suc fuel)) rsp now known
      ≡ (clean_loop (suc (suc fuel)) before_cleaner >>= unlock_task rsp now >>= unlock_task rsp now)
  unfolding terminate_task tasks_cleaner block_task retire_current schedule lock_task unlock_task
      lock_scheduler unlock_scheduler
  terminate_task-clean = refl

  freed-cleaned : leb max_tasks c ≡ false → freed c before_cleaner ≡ cleaned
  unfolding pcb_free lock_task lock_scheduler unlock_scheduler
  freed-cleaned inside = let self : (c == c) ≡ true = ground arith in rw (inside, self) refl

  clean_loop-cleaned :
      leb max_tasks c ≡ false → clean_loop (suc (suc fuel)) before_cleaner ≡ some cleaned
  unfolding lock_task lock_scheduler unlock_scheduler
  clean_loop-cleaned inside =
      clean_loop-some (suc fuel) c before_cleaner refl
      ∙ clean_loop-none fuel (freed c before_cleaner) (freed-list c before_cleaner ∙ ground arith)
      ∙ ap some (freed-cleaned inside)

  unlock-at_schedule :
      (unlock_task rsp now cleaned >>= unlock_task rsp now)
      ≡ (schedule rsp now at_schedule >>= λ t. some (unlock_scheduler t))
  unfolding unlock_task lock_task lock_scheduler unlock_scheduler
  unlock-at_schedule = refl

  terminate_task-schedule :
      leb max_tasks c ≡ false
      → terminate_task (suc (suc fuel)) rsp now known
        ≡ (schedule rsp now at_schedule >>= λ t. some (unlock_scheduler t))
  terminate_task-schedule inside =
      terminate_task-clean
      ∙ ap (λ o. o >>= unlock_task rsp now >>= unlock_task rsp now) (clean_loop-cleaned inside)
      ∙ unlock-at_schedule

  at_schedule-next : (x : ℕ) → (at_schedule.pcb x).next ≡ (if x == c then none else (s.pcb x).next)
  unfolding lock_task lock_scheduler unlock_scheduler
  at_schedule-next x = ground arith

  at_schedule-state :
      (x : ℕ) → (at_schedule.pcb x).state ≡ (if x == c then terminated else (s.pcb x).state)
  unfolding lock_task lock_scheduler unlock_scheduler
  at_schedule-state x = ground arith

  at_schedule-used : (x : ℕ) → (at_schedule.pcb x).used ≡ (if x == c then false else (s.pcb x).used)
  unfolding lock_task lock_scheduler unlock_scheduler
  at_schedule-used x = ground arith

  at_schedule-IsStopped :
      (h k : ℕ) (q : List ℕ) → IsQueue s c h (k ∷ q) → IsStopped at_schedule c h k q
  unfolding lock_task lock_scheduler unlock_scheduler
  at_schedule-IsStopped h k q is = record {
    last = is.last;
    current = refl;
    start = is.start;
    end = is.end;
    linked =
        Linked-same s.pcb at_schedule.pcb h (k ∷ q) is.last
          (All-map (λ t. c ≢ t) (λ t. (at_schedule.pcb t).next ≡ (s.pcb t).next) (h ∷ k ∷ q)
            (λ t apart. ground (arith, at_schedule-next t, apart)) is.distinct.0)
          is.linked;
    stopped = ground (arith, at_schedule-state c);
    waits =
        All-zip (λ t. c ≢ t) (λ t. (s.pcb t).state ≡ ready) (λ t. (at_schedule.pcb t).state ≡ ready)
          (h ∷ k ∷ q) (λ t apart waits. ground (arith, at_schedule-state t, apart, waits))
          is.distinct.0 is.waits;
    distinct = is.distinct;
    no_idle = is.no_idle;
    free = refl;
  }

  at_schedule-kept : (at_schedule.is_first ≡ s.is_first) × (at_schedule.terminated_task_list ≡ none)
  unfolding lock_task lock_scheduler unlock_scheduler
  at_schedule-kept = (refl, refl)

-- While two tasks or more wait, and no other task is to be freed, `terminate_task` by a task of the
-- array, with fuel for two rounds, takes it off the queue: the first task that waits runs, the others
-- move up, the slot of the task that ended is free, and no task is left to be freed.
pub terminate_task-IsQueue :
    (fuel rsp now c h k : ℕ) (q : List ℕ) (s : Scheduler)
    → c < max_tasks
    → IsQueue s c h (k ∷ q)
    → s.terminated_task_list ≡ none
    → (s' : Scheduler) × (terminate_task (suc (suc fuel)) rsp now s ≡ some s')
      × IsQueue s' h k q
      × ((x : ℕ) → (s'.pcb x).used ≡ (if x == c then false else (s.pcb x).used))
      × (s'.is_first ≡ s.is_first)
      × (s'.terminated_task_list ≡ none)
terminate_task-IsQueue fuel rsp now c h k q s inside is none_ended =
    let a = at_schedule fuel rsp now c s in
    let l = left rsp now c h a in
    let stopped = at_schedule-IsStopped fuel rsp now c s h k q is in
    let in_array : leb max_tasks c ≡ false = ground (arith, inside) in
    let same : known fuel rsp now c s ≡ s =
      ap (λ t. record s { current = some c; postponed_tasks_counter = 0; terminated_task_list = t })
        (sym none_ended)
      ∙ ap (λ n. record s { current = some c; postponed_tasks_counter = n }) (sym is.free)
      ∙ ap (λ o. record s { current = o }) (sym is.current) in
    let kept = unlock_left-Keeps rsp now c h a in
    let kept' = at_schedule-kept fuel rsp now c s in
    (
      unlock_scheduler l,
      subst (λ x. terminate_task (suc (suc fuel)) rsp now x ≡ some (unlock_scheduler l)) same
          (terminate_task-schedule fuel rsp now c s in_array
            ∙ ap (λ o. o >>= λ t. some (unlock_scheduler t))
                (schedule-left rsp now c h k q a stopped)),
      unlock_scheduler-IsQueue l h k q (left-IsQueue rsp now c h k q a stopped),
      (λ x.
          ap (λ p. p.used) (unlock_scheduler-pcb l x)
          ∙ left-used rsp now c h a x
          ∙ at_schedule-used fuel rsp now c s x),
      kept.0 ∙ kept'.0,
      kept.1 ∙ kept'.1,
    )
