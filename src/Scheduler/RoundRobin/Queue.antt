-- ===== src/Scheduler/RoundRobin/Queue.antt =====
-- The queue that the ready list stands for, and that `schedule` turns it round: the abstract
-- scheduler is the task that runs and the list of those that wait.
use mathlib.Core.Path.{subst}
use almorina_os.Prelude.{
  ℕ, ◌≡◌, ◌≢◌, refl, sym, ◌∙◌, arith, none, some, List, [], ◌∷◌, ◌++◌, All, All-append, ◌==◌,
  if◌then◌else◌,
}
use almorina_os.Scheduler.{Scheduler, Pcb, ready, running, schedule}
use almorina_os.Scheduler.RoundRobin.{
  switched, schedule-switched, switched-next, switched-state, switched-used,
}

-- From `i` the links lead through `q`, to `e`.
abbrev pub Linked : (ℕ → Pcb) → ℕ → List ℕ → ℕ → Type 0
Linked pcb i [] e = i ≡ e
Linked pcb i (j ∷ q) e = ((pcb i).next ≡ some j) × Linked pcb j q e

abbrev pub Distinct : List ℕ → Type 0
Distinct [] = Unit {0}
Distinct (t ∷ q) = All (λ u. t ≢ u) q × Distinct q

-- `c` runs, and the ready list holds `h` and then `q`, which all wait; no task stands twice, none is
-- the idle task, and no switch is put off.
pub record IsQueue (s : Scheduler) (c h : ℕ) (q : List ℕ) : Type 0 where
  pub last : ℕ
  pub current : s.current ≡ some c
  pub start : s.start_of_ready_list ≡ some h
  pub end : s.end_of_ready_list ≡ some last
  pub linked : Linked s.pcb h q last
  pub runs : (s.pcb c).state ≡ running
  pub waits : All (λ t. (s.pcb t).state ≡ ready) (h ∷ q)
  pub distinct : Distinct (c ∷ h ∷ q)
  pub no_idle : s.idle_task_p ≡ none
  pub free : s.postponed_tasks_counter ≡ 0

pub All-map : (P Q : ℕ → Type 0) (l : List ℕ) → ((t : ℕ) → P t → Q t) → All P l → All Q l
All-map P Q [] f h = tt
All-map P Q (t ∷ l) f h = (f t h.0, All-map P Q l f h.1)

pub All-zip :
    (P Q R : ℕ → Type 0) (l : List ℕ) → ((t : ℕ) → P t → Q t → R t) → All P l → All Q l → All R l
All-zip P Q R [] f h k = tt
All-zip P Q R (t ∷ l) f h k = (f t h.0 k.0, All-zip P Q R l f h.1 k.1)

-- The last task of a path is one of its tasks.
pub Linked-last :
    (P : ℕ → Type 0) (pcb : ℕ → Pcb) (i : ℕ) (q : List ℕ) (e : ℕ)
    → Linked pcb i q e
    → All P (i ∷ q)
    → P e
Linked-last P pcb i [] e path all = subst P path all.0
Linked-last P pcb i (j ∷ q) e path all = Linked-last P pcb j q e path.1 all.1

pub Linked-same :
    (pcb pcb' : ℕ → Pcb) (i : ℕ) (q : List ℕ) (e : ℕ)
    → All (λ t. (pcb' t).next ≡ (pcb t).next) (i ∷ q)
    → Linked pcb i q e
    → Linked pcb' i q e
Linked-same pcb pcb' i [] e same path = path
Linked-same pcb pcb' i (j ∷ q) e same path =
    (same.0 ∙ path.0, Linked-same pcb pcb' j q e same.1 path.1)

-- A task that is hung on the last one of a path ends it.
pub Linked-hang :
    (pcb pcb' : ℕ → Pcb) (i : ℕ) (q : List ℕ) (e c : ℕ)
    → ((x : ℕ) → (pcb' x).next ≡ (if x == e then some c else (pcb x).next))
    → Distinct (i ∷ q)
    → Linked pcb i q e
    → Linked pcb' i (q ++ c ∷ []) c
Linked-hang pcb pcb' i [] e c next distinct path = (ground (arith, next i), refl)
Linked-hang pcb pcb' i (j ∷ q) e c next distinct path =
    let inner : i ≢ e = Linked-last (λ t. i ≢ t) pcb j q e path.1 distinct.0 in
    (ground (arith, next i, inner), Linked-hang pcb pcb' j q e c next distinct.1 path.1)

pub Distinct-append :
    (q : List ℕ) (c : ℕ) → All (λ t. c ≢ t) q → Distinct q → Distinct (q ++ c ∷ [])
Distinct-append [] c apart distinct = (tt, tt)
Distinct-append (t ∷ q) c apart distinct = (
  All-append (λ u. t ≢ u) q (c ∷ []) distinct.0 ((λ e. apart.0 (sym e)), tt),
  Distinct-append q c apart.1 distinct.1,
)

state-kept :
    (rsp now c h e : ℕ) (s : Scheduler) (x : ℕ)
    → h ≢ x
    → c ≢ x
    → (s.pcb x).state ≡ ready
    → ((switched rsp now c h e s).pcb x).state ≡ ready
state-kept rsp now c h e s x not_head not_current waits =
    ground (arith, switched-state rsp now c h e s x, not_head, not_current)

-- What no switch changes.
abbrev pub Keeps : Scheduler → Scheduler → Type 0
Keeps s s' = (s'.is_first ≡ s.is_first) × (s'.terminated_task_list ≡ s.terminated_task_list)

-- While two tasks or more wait, `schedule` implements the turn of a queue: the first task that
-- waits runs, the others move up, and the task that ran waits behind them. No slot is given away.
pub schedule-IsQueue :
    (rsp now c h k : ℕ) (q : List ℕ) (s : Scheduler)
    → IsQueue s c h (k ∷ q)
    → (s' : Scheduler) × (schedule rsp now s ≡ some s')
      × IsQueue s' h k (q ++ c ∷ [])
      × ((x : ℕ) → (s'.pcb x).used ≡ (s.pcb x).used)
      × Keeps s s'
unfolding switched
schedule-IsQueue rsp now c h k q s is =
    let s' = switched rsp now c h is.last s in
    let (c_h, c_rest) = is.distinct.0 in
    let (h_rest, distinct) = is.distinct.1 in
    (
      s',
      schedule-switched rsp now c h is.last s is.current is.start is.end is.no_idle is.free is.runs
          is.waits.0,
      record {
        last = c;
        current = refl;
        start = is.linked.0;
        end = refl;
        linked =
            Linked-hang s.pcb s'.pcb k q is.last c (switched-next rsp now c h is.last s) distinct
              is.linked.1;
        runs = ground (arith, switched-state rsp now c h is.last s h);
        waits =
            All-append (λ t. (s'.pcb t).state ≡ ready) (k ∷ q) (c ∷ [])
              (All-zip (λ t. (h ≢ t) × (c ≢ t)) (λ t. (s.pcb t).state ≡ ready)
                (λ t. (s'.pcb t).state ≡ ready) (k ∷ q)
                (λ t apart waits. state-kept rsp now c h is.last s t apart.0 apart.1 waits)
                (All-zip (λ t. h ≢ t) (λ t. c ≢ t) (λ t. (h ≢ t) × (c ≢ t)) (k ∷ q)
                  (λ t a b. (a, b)) h_rest c_rest)
                is.waits.1)
              (ground (arith, switched-state rsp now c h is.last s c, c_h), tt);
        distinct = (
          All-append (λ t. h ≢ t) (k ∷ q) (c ∷ []) h_rest ((λ e. c_h (sym e)), tt),
          Distinct-append (k ∷ q) c c_rest distinct,
        );
        no_idle = is.no_idle;
        free = is.free;
      },
      switched-used rsp now c h is.last s,
      (refl, refl),
    )
