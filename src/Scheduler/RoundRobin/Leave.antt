-- ===== src/Scheduler/RoundRobin/Leave.antt =====
-- A switch from a task that does not wait again.
use almorina_os.Prelude.{
  ℕ, ◌≡◌, ◌≢◌, refl, ap, ◌∙◌, arith, false, none, some, List, ◌∷◌, All, ◌==◌, if◌then◌else◌,
}
use almorina_os.Prelude.Fault.{◌>>=◌}
use almorina_os.Scheduler.{
  Scheduler, ready, running, is_state, requeue, resume, schedule, start_picked, unlock_scheduler,
}
use almorina_os.Scheduler.RoundRobin.{
  saved, started, taken, pick-taken, schedule-pick, start_picked-switch, switch_to_task-requeue,
  resume-started,
}
use almorina_os.Scheduler.RoundRobin.Queue.{
  IsQueue, Keeps, Linked, Linked-same, Distinct, All-map, All-zip,
}

-- The current task `c` has stopped, and the ready list holds `h`, `k` and then `q`, which all wait.
pub record IsStopped (s : Scheduler) (c h k : ℕ) (q : List ℕ) : Type 0 where
  pub last : ℕ
  pub current : s.current ≡ some c
  pub start : s.start_of_ready_list ≡ some h
  pub end : s.end_of_ready_list ≡ some last
  pub linked : Linked s.pcb h (k ∷ q) last
  pub stopped : is_state (s.pcb c).state running ≡ false
  pub waits : All (λ t. (s.pcb t).state ≡ ready) (h ∷ k ∷ q)
  pub distinct : Distinct (c ∷ h ∷ k ∷ q)
  pub no_idle : s.idle_task_p ≡ none
  pub free : s.postponed_tasks_counter ≡ 0

requeue-stopped :
    (c : ℕ) (s : Scheduler) → is_state (s.pcb c).state running ≡ false → requeue c s ≡ some s
unfolding requeue
requeue-stopped c s stopped = rw stopped refl

-- The state behind a switch from `c`, which does not wait again, to `h`.
abbrev pub left : ℕ → ℕ → ℕ → ℕ → Scheduler → Scheduler
left rsp now c h s = started h now (saved rsp c (taken h s))

pub schedule-left :
    (rsp now c h k : ℕ) (q : List ℕ) (s : Scheduler)
    → IsStopped s c h k q
    → schedule rsp now s ≡ some (left rsp now c h s)
schedule-left rsp now c h k q s is =
    schedule-pick rsp now c h s is.free is.start
    ∙ ap (λ o. o >>= start_picked rsp now) (pick-taken h s is.no_idle)
    ∙ start_picked-switch rsp now h (taken h s) is.waits.0
    ∙ switch_to_task-requeue rsp now c h (taken h s) is.free is.current
    ∙ ap (λ o. o >>= λ s'. some (resume h now s'))
        (requeue-stopped c (saved rsp c (taken h s)) (ground (arith, is.stopped)))
    ∙ ap some (resume-started now h (saved rsp c (taken h s)))

module _ (rsp now c h : ℕ) (s : Scheduler) where
  pub left-next : (x : ℕ) → ((left rsp now c h s).pcb x).next ≡ (s.pcb x).next
  left-next x = ground arith

  pub left-state :
      (x : ℕ) → ((left rsp now c h s).pcb x).state ≡ (if x == h then running else (s.pcb x).state)
  left-state x = ground arith

pub left-IsQueue :
    (rsp now c h k : ℕ) (q : List ℕ) (s : Scheduler)
    → IsStopped s c h k q
    → IsQueue (left rsp now c h s) h k q
left-IsQueue rsp now c h k q s is =
    let s' = left rsp now c h s in
    record {
      last = is.last;
      current = refl;
      start = is.linked.0;
      end = is.end;
      linked =
          Linked-same s.pcb s'.pcb k q is.last
            (All-map (λ t. h ≢ t) (λ t. (s'.pcb t).next ≡ (s.pcb t).next) (k ∷ q)
              (λ t apart. left-next rsp now c h s t) is.distinct.1.0)
            is.linked.1;
      runs = ground (arith, left-state rsp now c h s h);
      waits =
          All-zip (λ t. h ≢ t) (λ t. (s.pcb t).state ≡ ready) (λ t. (s'.pcb t).state ≡ ready)
            (k ∷ q) (λ t apart waits. ground (arith, left-state rsp now c h s t, apart, waits))
            is.distinct.1.0 is.waits.1;
      distinct = is.distinct.1;
      no_idle = is.no_idle;
      free = is.free;
    }

-- The interrupt flag and its counter are no part of the queue.
pub unlock_scheduler-IsQueue :
    (s : Scheduler) (c h : ℕ) (q : List ℕ) → IsQueue s c h q → IsQueue (unlock_scheduler s) c h q
unfolding unlock_scheduler
unlock_scheduler-IsQueue s c h q is = record {
  last = is.last;
  current = is.current;
  start = is.start;
  end = is.end;
  linked = is.linked;
  runs = is.runs;
  waits = is.waits;
  distinct = is.distinct;
  no_idle = is.no_idle;
  free = is.free;
}

pub left-used :
    (rsp now c h : ℕ) (s : Scheduler) (x : ℕ) → ((left rsp now c h s).pcb x).used ≡ (s.pcb x).used
left-used rsp now c h s x = ground arith

pub unlock_scheduler-pcb : (s : Scheduler) (x : ℕ) → (unlock_scheduler s).pcb x ≡ s.pcb x
unfolding unlock_scheduler
unlock_scheduler-pcb s x = refl

pub unlock_left-Keeps :
    (rsp now c h : ℕ) (s : Scheduler) → Keeps s (unlock_scheduler (left rsp now c h s))
unfolding unlock_scheduler
unlock_left-Keeps rsp now c h s = (refl, refl)
