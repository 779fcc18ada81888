-- ===== src/Scheduler/RoundRobin/Runs.antt =====
-- Every state that the scheduler's operations lead to is a queue again.
use mathlib.Core.Path.{subst}
use almorina_os.Prelude.{
  ℕ, suc, ◌<◌, ◌≡◌, ◌≢◌, inl, inr, refl, sym, ap, ◌∙◌, arith, true, false, Option, none, some,
  some_inj, List, [], ◌∷◌, ◌++◌, All, All-append,
}
use almorina_os.Scheduler.{Scheduler, TaskState, running, max_tasks, is_state, schedule}
use almorina_os.Scheduler.Tasks.{block_task, terminate_task}
use almorina_os.Scheduler.Process.{pcb_alloc}
use almorina_os.Scheduler.RoundRobin.Queue.{IsQueue, All-map, All-zip, schedule-IsQueue}
use almorina_os.Scheduler.RoundRobin.Arrival.{AreUsed, pcb_alloc-IsQueue}
use almorina_os.Scheduler.RoundRobin.Block.{block_task-IsQueue}
use almorina_os.Scheduler.RoundRobin.Ending.{terminate_task-IsQueue}

-- The scheduler is a queue of tasks that hold slots of the array, and no task is to be freed.
pub record IsServed (s : Scheduler) (c h : ℕ) (q : List ℕ) : Type 0 where
  pub queue : IsQueue s c h q
  pub used : AreUsed s (c ∷ h ∷ q)
  pub inside : All (λ t. t < max_tasks) (c ∷ h ∷ q)
  pub later : s.is_first ≡ false
  pub none_ended : s.terminated_task_list ≡ none

-- At least two tasks wait: the ready list starts and ends with different ones.
abbrev pub TwoWait : Scheduler → Type 0
TwoWait s = s.start_of_ready_list ≢ s.end_of_ready_list

-- What happens to the tasks: a switch, a call for a new task with what it returned, or the running
-- task blocks or ends.
pub data Event : Type 0 where
  switched gone : Event
  arrived : Option ℕ → Event

-- What an event makes of the tasks, of which the first one runs.
abbrev pub effect : Event → List ℕ → List ℕ
effect e [] = []
effect switched (c ∷ l) = l ++ c ∷ []
effect gone (c ∷ l) = l
effect (arrived none) (c ∷ l) = c ∷ l
effect (arrived (some i)) (c ∷ l) = c ∷ (l ++ i ∷ [])

abbrev pub effects : List Event → List ℕ → List ℕ
effects [] l = l
effects (e ∷ es) l = effects es (effect e l)

-- The operations behind the events. Two tasks wait to take over, where one is to.
pub data Step : Event → Scheduler → Scheduler → Type 0 where
  switch :
      {s t : Scheduler} (rsp now : ℕ) → TwoWait s → schedule rsp now s ≡ some t → Step switched s t
  create : {s t : Scheduler} (r : Option ℕ) → pcb_alloc s ≡ some (r, t) → Step (arrived r) s t
  block :
      {s t : Scheduler} (rsp now : ℕ) (reason : TaskState)
      → is_state reason running ≡ false
      → TwoWait s
      → block_task rsp now reason s ≡ some t
      → Step gone s t
  end :
      {s t : Scheduler} (fuel rsp now : ℕ)
      → TwoWait s
      → terminate_task (suc (suc fuel)) rsp now s ≡ some t
      → Step gone s t

pub data Reach : Scheduler → List Event → Scheduler → Type 0 where
  here : {s : Scheduler} → Reach s [] s
  next :
      {s t u : Scheduler} {e : Event} {es : List Event}
      → Step e s t
      → Reach t es u
      → Reach s (e ∷ es) u

-- The scheduler serves these tasks, of which the first one runs.
abbrev pub Serves : Scheduler → List ℕ → Type 0
Serves s l = (c : ℕ) × (h : ℕ) × (q : List ℕ) × IsServed s c h q × (c ∷ (h ∷ q) ≡ l)

-- One task that waits is not two.
one_waits : (s : Scheduler) (c h : ℕ) → IsServed s c h [] → ¬ TwoWait s
one_waits s c h is two = two (is.queue.start ∙ ap some is.queue.linked ∙ sym is.queue.end)

determined : {A : Type 0} {x : Option A} {a b : A} → x ≡ some a → x ≡ some b → a ≡ b
determined e f = some_inj (sym e ∙ f)

used-kept :
    (s s' : Scheduler) (l : List ℕ)
    → ((x : ℕ) → (s'.pcb x).used ≡ (s.pcb x).used)
    → AreUsed s l
    → AreUsed s' l
used-kept s s' l same used =
    All-map (λ t. (s.pcb t).used ≡ true) (λ t. (s'.pcb t).used ≡ true) l (λ t u. same t ∙ u) used

Step-switch :
    (rsp now c h k : ℕ) (q : List ℕ) (s t : Scheduler)
    → IsServed s c h (k ∷ q)
    → schedule rsp now s ≡ some t
    → IsServed t h k (q ++ c ∷ [])
Step-switch rsp now c h k q s t is runs =
    let (s', runs', queue, used, (first, ended)) = schedule-IsQueue rsp now c h k q s is.queue in
    subst (λ x. IsServed x h k (q ++ c ∷ [])) (determined runs' runs)
      (record {
        queue = queue;
        used = used-kept s s' (h ∷ k ∷ q ++ c ∷ []) used (
            All-append (λ t. (s.pcb t).used ≡ true) (h ∷ k ∷ q) (c ∷ []) is.used.1 (is.used.0, tt));
        inside = All-append (λ t. t < max_tasks) (h ∷ k ∷ q) (c ∷ []) is.inside.1 (is.inside.0, tt);
        later = first ∙ is.later;
        none_ended = ended ∙ is.none_ended;
      })

Step-block :
    (rsp now c h k : ℕ) (q : List ℕ) (reason : TaskState) (s t : Scheduler)
    → is_state reason running ≡ false
    → IsServed s c h (k ∷ q)
    → block_task rsp now reason s ≡ some t
    → IsServed t h k q
Step-block rsp now c h k q reason s t stops is runs =
    let (s', runs', queue, _, used, (first, ended)) =
      block_task-IsQueue rsp now c h k q reason s stops is.queue in
    subst (λ x. IsServed x h k q) (determined runs' runs)
      (record {
        queue = queue;
        used = used-kept s s' (h ∷ k ∷ q) used is.used.1;
        inside = is.inside.1;
        later = first ∙ is.later;
        none_ended = ended ∙ is.none_ended;
      })

Step-end :
    (fuel rsp now c h k : ℕ) (q : List ℕ) (s t : Scheduler)
    → IsServed s c h (k ∷ q)
    → terminate_task (suc (suc fuel)) rsp now s ≡ some t
    → IsServed t h k q
Step-end fuel rsp now c h k q s t is runs =
    let (s', runs', queue, used, first, ended) =
      terminate_task-IsQueue fuel rsp now c h k q s is.inside.0 is.queue is.none_ended in
    subst (λ x. IsServed x h k q) (determined runs' runs)
      (record {
        queue = queue;
        used =
            All-zip (λ t. c ≢ t) (λ t. (s.pcb t).used ≡ true) (λ t. (s'.pcb t).used ≡ true)
              (h ∷ k ∷ q) (λ t apart u. ground (arith, used t, apart, u)) is.queue.distinct.0
              is.used.1;
        inside = is.inside.1;
        later = first ∙ is.later;
        none_ended = ended;
      })

Step-create :
    (r : Option ℕ) (c h : ℕ) (q : List ℕ) (s t : Scheduler)
    → IsServed s c h q
    → pcb_alloc s ≡ some (r, t)
    → Serves t (effect (arrived r) (c ∷ (h ∷ q)))
Step-create r c h q s t is runs = elim (pcb_alloc-IsQueue c h q s is.queue is.used is.later) [
  | inl (full, _) ↦
      subst (λ p. Serves p.1 (effect (arrived p.0) (c ∷ (h ∷ q)))) (determined full runs)
        (c, h, q, is, refl)
  | inr (i, s', runs', _, queue, below, used, (first, ended)) ↦
      subst (λ p. Serves p.1 (effect (arrived p.0) (c ∷ (h ∷ q)))) (determined runs' runs)
        (
          c,
          h,
          q ++ i ∷ [],
          record {
            queue = queue;
            used =
                All-append (λ t. (s'.pcb t).used ≡ true) (c ∷ h ∷ q) (i ∷ [])
                  (All-map (λ t. (s.pcb t).used ≡ true) (λ t. (s'.pcb t).used ≡ true) (c ∷ h ∷ q)
                    (λ t u. ground (arith, used t, u)) is.used)
                  (ground (arith, used i), tt);
            inside = All-append (λ t. t < max_tasks) (c ∷ h ∷ q) (i ∷ []) is.inside (below, tt);
            later = first ∙ is.later;
            none_ended = ended ∙ is.none_ended;
          },
          refl,
        )
]

Step-Serves :
    {e : Event} {s t : Scheduler} (c h : ℕ) (q : List ℕ)
    → IsServed s c h q
    → Step e s t
    → Serves t (effect e (c ∷ (h ∷ q)))
Step-Serves {e} {s} {t} c h q is (create r runs) = Step-create r c h q s t is runs
Step-Serves {e} {s} {t} c h [] is (switch rsp now two runs) = absurd (one_waits s c h is two)
Step-Serves {e} {s} {t} c h (k ∷ r) is (switch rsp now two runs) =
    (h, k, r ++ c ∷ [], Step-switch rsp now c h k r s t is runs, refl)
Step-Serves {e} {s} {t} c h [] is (block rsp now reason stops two runs) =
    absurd (one_waits s c h is two)
Step-Serves {e} {s} {t} c h (k ∷ r) is (block rsp now reason stops two runs) =
    (h, k, r, Step-block rsp now c h k r reason s t stops is runs, refl)
Step-Serves {e} {s} {t} c h [] is (end fuel rsp now two runs) = absurd (one_waits s c h is two)
Step-Serves {e} {s} {t} c h (k ∷ r) is (end fuel rsp now two runs) =
    (h, k, r, Step-end fuel rsp now c h k r s t is runs, refl)

-- From a queue of tasks that hold their slots, switches, calls for new tasks, and tasks that block or
-- end, in any order, lead to the queue that these events make of the first one: a switch puts the
-- task that runs behind all others, a new task comes in last, and a task that blocks or ends goes. The
-- first task of the queue runs, the links of the ready list lead through exactly the others, in this
-- order, to its end, no task stands twice, and all of them hold slots of the array. A switch, and a
-- task that blocks or ends, must find two tasks or more that wait.
pub Reach-IsServed :
    {s t : Scheduler} {es : List Event} (c h : ℕ) (q : List ℕ)
    → IsServed s c h q
    → Reach s es t
    → (c' : ℕ) × (h' : ℕ) × (q' : List ℕ) × IsServed t c' h' q'
      × (c' ∷ (h' ∷ q') ≡ effects es (c ∷ (h ∷ q)))
Reach-IsServed c h q is here = (c, h, q, is, refl)
Reach-IsServed c h q is (next {es = es} step reach) =
    let (c1, h1, q1, is1, same) = Step-Serves c h q is step in
    let (c', h', q', is', end_same) = Reach-IsServed c1 h1 q1 is1 reach in
    (c', h', q', is', end_same ∙ ap (effects es) same)
