-- ===== src/Scheduler/RoundRobin/Arrival.antt =====
-- A new task on the queue.
use mathlib.Core.Path.{subst}
use almorina_os.Prelude.{
  ℕ, ◌<◌, ◌≡◌, ◌≢◌, ◌⊎◌, inl, inr, refl, sym, ap, ◌∙◌, arith, true, false, Option, none, some, List,
  [], ◌∷◌, ◌++◌, All, All-append, ◌==◌, if◌then◌else◌,
}
use almorina_os.Prelude.Fault.{◌>>=◌}
use almorina_os.Scheduler.{Scheduler, ready, max_tasks, put}
use almorina_os.Scheduler.Process.{find_slot, occupy, enqueue, pcb_alloc}
use almorina_os.Scheduler.Slots.{Searched, find_slot-Searched}
use almorina_os.Scheduler.RoundRobin.Queue.{
  IsQueue, Keeps, Linked-same, Linked-hang, Distinct-append, All-map,
}

abbrev arrived : ℕ → ℕ → Scheduler → Scheduler
arrived i e s =
    let p = s.pcb e in record (put e (record p { next = some i }) s) { end_of_ready_list = some i }

abbrev Enqueues : ℕ → ℕ → Scheduler → Type 0
Enqueues i e s = enqueue i s ≡ some (arrived i e s)

Enqueues-known :
    (i e : ℕ) (s : Scheduler)
    → Enqueues i e (record s { end_of_ready_list = some e; is_first = false })
unfolding enqueue
Enqueues-known i e s = refl

enqueue-arrived :
    (i e : ℕ) (s : Scheduler) → s.end_of_ready_list ≡ some e → s.is_first ≡ false → Enqueues i e s
enqueue-arrived i e s ends later =
    subst (Enqueues i e)
      (ap (λ b. record s { end_of_ready_list = some e; is_first = b }) (sym later)
        ∙ ap (λ o. record s { end_of_ready_list = o }) (sym ends))
      (Enqueues-known i e s)

-- The slots behind the arrival of a task.
module _ (i e : ℕ) (s : Scheduler) where
  abbrev joined : Scheduler
  joined = arrived i e (occupy i s)

  joined-next :
      (x : ℕ) → (joined.pcb x).next ≡ (if x == e then some i else ((occupy i s).pcb x).next)
  joined-next x = ground arith

  occupied-next : (x : ℕ) → i ≢ x → ((occupy i s).pcb x).next ≡ (s.pcb x).next
  unfolding occupy
  occupied-next x apart = ground (arith, apart)

  joined-state : (x : ℕ) → (joined.pcb x).state ≡ (if x == i then ready else (s.pcb x).state)
  unfolding occupy
  joined-state x = ground arith

  joined-used : (x : ℕ) → (joined.pcb x).used ≡ (if x == i then true else (s.pcb x).used)
  unfolding occupy
  joined-used x = ground arith

  joined-Keeps : Keeps s joined
  unfolding occupy
  joined-Keeps = (refl, refl)

abbrev pub AreUsed : Scheduler → List ℕ → Type 0
AreUsed s = All (λ t. (s.pcb t).used ≡ true)

AreUsed-apart :
    (s : Scheduler) (i : ℕ) (l : List ℕ) → (s.pcb i).used ≡ false → AreUsed s l → All (λ t. i ≢ t) l
AreUsed-apart s i [] free used = tt
AreUsed-apart s i (t ∷ l) free used = (
  (λ e. ground (arith, ap (λ x. (s.pcb x).used) e, used.0, free)),
  AreUsed-apart s i l free used.1,
)

joined-IsQueue :
    (i c h : ℕ) (q : List ℕ) (s : Scheduler) (is : IsQueue s c h q)
    → All (λ t. i ≢ t) (c ∷ h ∷ q)
    → IsQueue (joined i is.last s) c h (q ++ i ∷ [])
unfolding occupy
joined-IsQueue i c h q s is (c_i, rest_i) =
    let s' = joined i is.last s in
    record {
      last = i;
      current = is.current;
      start = is.start;
      end = refl;
      linked =
          Linked-hang (occupy i s).pcb s'.pcb h q is.last i (joined-next i is.last s) is.distinct.1
            (Linked-same s.pcb (occupy i s).pcb h q is.last
              (All-map (λ t. i ≢ t) (λ t. ((occupy i s).pcb t).next ≡ (s.pcb t).next) (h ∷ q)
                (occupied-next i is.last s) rest_i)
              is.linked);
      runs = ground (arith, joined-state i is.last s c, is.runs, c_i);
      waits =
          All-append (λ t. (s'.pcb t).state ≡ ready) (h ∷ q) (i ∷ [])
            (All-map (λ t. (s.pcb t).state ≡ ready) (λ t. (s'.pcb t).state ≡ ready) (h ∷ q)
              (λ t waits. ground (arith, joined-state i is.last s t, waits)) is.waits)
            (ground (arith, joined-state i is.last s i), tt);
      distinct = (
        All-append (λ t. c ≢ t) (h ∷ q) (i ∷ []) is.distinct.0 ((λ e. c_i (sym e)), tt),
        Distinct-append (h ∷ q) i rest_i is.distinct.1,
      );
      no_idle = is.no_idle;
      free = is.free;
    }

abbrev outcome : Option ℕ → Scheduler → Option (Option ℕ × Scheduler)
outcome o s = elim o [
  | none ↦ some (none, s)
  | some i ↦ enqueue i (occupy i s) >>= λ s'. some (some i, s')
]

-- Once the ready list is started, and while the tasks of the queue hold their slots, `pcb_alloc`
-- implements the arrival at a queue: the new task waits behind all others, in a slot of the array
-- that was free, and only that slot is given away; or every slot is used,
-- and it returns null and changes nothing.
pub pcb_alloc-IsQueue :
    (c h : ℕ) (q : List ℕ) (s : Scheduler)
    → IsQueue s c h q
    → AreUsed s (c ∷ h ∷ q)
    → s.is_first ≡ false
    → ((pcb_alloc s ≡ some (none, s)) × ((j : ℕ) → j < max_tasks → (s.pcb j).used ≡ true))
      ⊎ ((i : ℕ) × (s' : Scheduler) × (pcb_alloc s ≡ some (some i, s'))
          × ((s.pcb i).used ≡ false)
          × IsQueue s' c h (q ++ i ∷ [])
          × (i < max_tasks)
          × ((x : ℕ) → (s'.pcb x).used ≡ (if x == i then true else (s.pcb x).used))
          × Keeps s s')
unfolding pcb_alloc
pcb_alloc-IsQueue c h q s is used later =
    arrives (find_slot max_tasks 0 s.pcb) (find_slot-Searched max_tasks 0 s.pcb)
  where
    arrives :
        (o : Option ℕ)
        → Searched max_tasks 0 s.pcb o
        → ((outcome o s ≡ some (none, s)) × ((j : ℕ) → j < max_tasks → (s.pcb j).used ≡ true))
          ⊎ ((i : ℕ) × (s' : Scheduler) × (outcome o s ≡ some (some i, s'))
              × ((s.pcb i).used ≡ false)
              × IsQueue s' c h (q ++ i ∷ [])
              × (i < max_tasks)
              × ((x : ℕ) → (s'.pcb x).used ≡ (if x == i then true else (s.pcb x).used))
              × Keeps s s')
    arrives none full = inl (refl, λ j lt. full j (omega arith) (omega arith))
    arrives (some i) (_, below, free, _) = inr (
      i,
      joined i is.last s,
      ap (λ (o : Option Scheduler). o >>= λ s'. some (some i, s'))
          (enqueue-arrived i is.last (occupy i s) is.end later),
      free,
      joined-IsQueue i c h q s is (AreUsed-apart s i (c ∷ h ∷ q) free used),
      omega (arith, below),
      joined-used i is.last s,
      joined-Keeps i is.last s,
    )
