-- ===== src/Scheduler/RoundRobin/Block.antt =====
-- The current task blocks.
use mathlib.Core.Path.{subst}
use almorina_os.Prelude.{ℕ, ◌≡◌, ◌≢◌, refl, sym, ap, ◌∙◌, arith, false, some, List, ◌∷◌}
use almorina_os.Prelude.Fault.{◌>>=◌}
use almorina_os.Scheduler.{
  Scheduler, TaskState, ready, running, is_state, set_state, schedule, lock_scheduler,
  unlock_scheduler,
}
use almorina_os.Scheduler.Tasks.{block_task}
use almorina_os.Scheduler.RoundRobin.Leave.{
  IsStopped, left, schedule-left, left-IsQueue, left-state, left-used, unlock_scheduler-IsQueue,
  unlock_scheduler-pcb, unlock_left-Keeps,
}
use almorina_os.Scheduler.RoundRobin.Queue.{IsQueue, Keeps, Linked-same, All-map, All-zip}

module _ (rsp now c h k : ℕ) (q : List ℕ) (reason : TaskState) (s : Scheduler) where
  -- The state in which `block_task` calls `schedule`.
  abbrev blocked : Scheduler
  blocked = set_state c reason (lock_scheduler s)

  abbrev Blocks : Scheduler → Type 0
  Blocks s = block_task rsp now reason s ≡ (
      schedule rsp now (set_state c reason (lock_scheduler s)) >>= λ t. some (unlock_scheduler t))

  Blocks-known : Blocks (record s { current = some c })
  unfolding block_task
  Blocks-known = refl

  block_task-schedule : s.current ≡ some c → Blocks s
  block_task-schedule here =
      subst Blocks (ap (λ o. record s { current = o }) (sym here)) Blocks-known

  blocked-IsStopped :
      is_state reason running ≡ false → IsQueue s c h (k ∷ q) → IsStopped blocked c h k q
  unfolding lock_scheduler
  blocked-IsStopped stops is = record {
    last = is.last;
    current = is.current;
    start = is.start;
    end = is.end;
    linked =
        Linked-same s.pcb blocked.pcb h (k ∷ q) is.last
          (All-map (λ t. c ≢ t) (λ t. (blocked.pcb t).next ≡ (s.pcb t).next) (h ∷ k ∷ q)
            (λ t apart. ground (arith, apart)) is.distinct.0)
          is.linked;
    stopped = ground (arith, stops);
    waits =
        All-zip (λ t. c ≢ t) (λ t. (s.pcb t).state ≡ ready) (λ t. (blocked.pcb t).state ≡ ready)
          (h ∷ k ∷ q) (λ t apart waits. ground (arith, apart, waits)) is.distinct.0 is.waits;
    distinct = is.distinct;
    no_idle = is.no_idle;
    free = is.free;
  }

  blocked-state : (blocked.pcb c).state ≡ reason
  unfolding lock_scheduler
  blocked-state = ground arith

  blocked-used : (x : ℕ) → (blocked.pcb x).used ≡ (s.pcb x).used
  unfolding lock_scheduler
  blocked-used x = ground arith

  blocked-Keeps : Keeps s blocked
  unfolding lock_scheduler
  blocked-Keeps = (refl, refl)

-- While two tasks or more wait, `block_task` for a reason other than running takes the current task
-- off the queue: the first task that waits runs, the others move up, and the task that blocked keeps
-- its slot, with the reason as its state.
pub block_task-IsQueue :
    (rsp now c h k : ℕ) (q : List ℕ) (reason : TaskState) (s : Scheduler)
    → is_state reason running ≡ false
    → IsQueue s c h (k ∷ q)
    → (s' : Scheduler) × (block_task rsp now reason s ≡ some s')
      × IsQueue s' h k q
      × ((s'.pcb c).state ≡ reason)
      × ((x : ℕ) → (s'.pcb x).used ≡ (s.pcb x).used)
      × Keeps s s'
block_task-IsQueue rsp now c h k q reason s stops is =
    let stopped = blocked-IsStopped rsp now c h k q reason s stops is in
    let b = blocked rsp now c h k q reason s in
    let l = left rsp now c h b in
    let kept = unlock_left-Keeps rsp now c h b in
    let kept' = blocked-Keeps rsp now c h k q reason s in
    (
      unlock_scheduler l,
      block_task-schedule rsp now c h k q reason s is.current
          ∙ ap (λ o. o >>= λ t. some (unlock_scheduler t))
              (schedule-left rsp now c h k q b stopped),
      unlock_scheduler-IsQueue l h k q (left-IsQueue rsp now c h k q b stopped),
      ap (λ p. p.state) (unlock_scheduler-pcb l c)
          ∙ left-state rsp now c h b c
          ∙ ground (arith, is.distinct.0.0, blocked-state rsp now c h k q reason s),
      (λ x.
          ap (λ p. p.used) (unlock_scheduler-pcb l x)
          ∙ left-used rsp now c h b x
          ∙ blocked-used rsp now c h k q reason s x),
      (kept.0 ∙ kept'.0, kept.1 ∙ kept'.1),
    )
