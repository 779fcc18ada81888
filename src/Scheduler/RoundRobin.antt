-- ===== src/Scheduler/RoundRobin.antt =====
-- The ready list as a queue: what a switch of tasks by `schedule` does to the links of the list,
-- once no idle task is set and no switch is put off.
pub mod Queue
pub mod Rounds
pub mod Arrival
pub mod Leave
pub mod Block
pub mod Ending
pub mod Runs
mod Tests
use mathlib.Core.Path.{subst}
use almorina_os.Prelude.{ℕ, ◌≡◌, refl, sym, ap, ◌∙◌, arith, Option, none, some, ◌==◌, if◌then◌else◌}
use almorina_os.Prelude.Store.{update}
use almorina_os.Prelude.Fault.{◌>>=◌}
use almorina_os.Scheduler.{
  Scheduler, Pcb, ready, running, put, set_state, set_next, requeue, resume, switch_to_task, pick,
  start_picked, schedule,
}

-- The state after a switch from `c` to `h`, when `e` ends the ready list.
abbrev saved : ℕ → ℕ → Scheduler → Scheduler
saved rsp c s = let p = s.pcb c in put c (record p { tos = rsp }) s

abbrev hung : ℕ → ℕ → Scheduler → Scheduler
hung c e s =
    let s' = set_state c ready s in
    let p = s'.pcb e in
    record (put e (record p { next = some c }) s') { end_of_ready_list = some c }

abbrev started : ℕ → ℕ → Scheduler → Scheduler
started h now s =
    let p = s.pcb h in
    put h (record p { switch_time = now; state = running }) (record s { current = some h })

abbrev taken : ℕ → Scheduler → Scheduler
taken h s = record s { start_of_ready_list = (s.pcb h).next }

unfoldable pub switched : ℕ → ℕ → ℕ → ℕ → ℕ → Scheduler → Scheduler
switched rsp now c h e s = started h now (hung c e (saved rsp c (taken h s)))

pick-taken : (h : ℕ) (s : Scheduler) → s.idle_task_p ≡ none → pick h s ≡ some (some h, taken h s)
unfolding pick
pick-taken h s no_idle = rw no_idle refl

requeue-hung :
    (c e : ℕ) (s : Scheduler)
    → (s.pcb c).state ≡ running
    → s.end_of_ready_list ≡ some e
    → requeue c s ≡ some (hung c e s)
unfolding requeue
requeue-hung c e s runs ends = rw (runs, ends) refl

-- The calls that are made once the tests are known; the record is moved to one whose fields are.
module _ (rsp now : ℕ) (c h : ℕ) (s : Scheduler) (free : s.postponed_tasks_counter ≡ 0) where
  abbrev Switches : Scheduler → Type 0
  Switches s =
      switch_to_task rsp now (some h) s
      ≡ (requeue c (saved rsp c s) >>= λ s'. some (resume h now s'))

  Switches-known : Switches (record s { current = some c; postponed_tasks_counter = 0 })
  unfolding switch_to_task
  Switches-known = refl

  switch_to_task-requeue : s.current ≡ some c → Switches s
  switch_to_task-requeue here =
      subst Switches
        (ap (λ n. record s { current = some c; postponed_tasks_counter = n }) (sym free)
          ∙ ap (λ o. record s { current = o }) (sym here))
        Switches-known

  abbrev Picks : Scheduler → Type 0
  Picks s = schedule rsp now s ≡ (pick h s >>= start_picked rsp now)

  Picks-known : Picks (record s { start_of_ready_list = some h; postponed_tasks_counter = 0 })
  unfolding schedule
  Picks-known = refl

  schedule-pick : s.start_of_ready_list ≡ some h → Picks s
  schedule-pick starts =
      subst Picks
        (ap (λ n. record s { start_of_ready_list = some h; postponed_tasks_counter = n }) (sym free)
          ∙ ap (λ o. record s { start_of_ready_list = o }) (sym starts))
        Picks-known

start_picked-switch :
    (rsp now h : ℕ) (s : Scheduler)
    → (s.pcb h).state ≡ ready
    → start_picked rsp now (some h, s) ≡ switch_to_task rsp now (some h) s
unfolding start_picked
start_picked-switch rsp now h s waits = rw waits refl

resume-started : (now h : ℕ) (s : Scheduler) → resume h now s ≡ started h now s
unfolding resume
resume-started now h s = refl

-- With a task on the ready list that waits, and a task that runs, `schedule` switches from the one
-- to the other.
pub schedule-switched :
    (rsp now c h e : ℕ) (s : Scheduler)
    → s.current ≡ some c
    → s.start_of_ready_list ≡ some h
    → s.end_of_ready_list ≡ some e
    → s.idle_task_p ≡ none
    → s.postponed_tasks_counter ≡ 0
    → (s.pcb c).state ≡ running
    → (s.pcb h).state ≡ ready
    → schedule rsp now s ≡ some (switched rsp now c h e s)
unfolding switched
schedule-switched rsp now c h e s here starts ends no_idle free runs waits =
    schedule-pick rsp now c h s free starts
    ∙ ap (λ o. o >>= start_picked rsp now) (pick-taken h s no_idle)
    ∙ start_picked-switch rsp now h (taken h s) waits
    ∙ switch_to_task-requeue rsp now c h (taken h s) free here
    ∙ ap (λ o. o >>= λ s'. some (resume h now s'))
        (requeue-hung c e (saved rsp c (taken h s)) (ground (arith, runs)) ends)
    ∙ ap some (resume-started now h (hung c e (saved rsp c (taken h s))))

-- What the switch leaves in the slots.
module _ (rsp now c h e : ℕ) (s : Scheduler) where
  pub switched-next :
      (x : ℕ)
      → ((switched rsp now c h e s).pcb x).next ≡ (if x == e then some c else (s.pcb x).next)
  unfolding switched
  switched-next x = ground arith

  pub switched-state :
      (x : ℕ)
      → ((switched rsp now c h e s).pcb x).state
        ≡ (if x == h then running else if x == c then ready else (s.pcb x).state)
  unfolding switched
  switched-state x = ground arith

  pub switched-used : (x : ℕ) → ((switched rsp now c h e s).pcb x).used ≡ (s.pcb x).used
  unfolding switched
  switched-used x = ground arith
