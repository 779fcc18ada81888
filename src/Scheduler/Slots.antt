-- ===== src/Scheduler/Slots.antt =====
-- Slots of `pcbArray`: how they are taken and given back.
use native.Mathlib.Decide.{ℕ_discrete}
use almorina_os.Prelude.{
  ℕ, zero, suc, ◌+◌, ◌*◌, ◌≤◌, ◌<◌, ◌^◌, ◌≡◌, ◌≢◌, ◌⊎◌, refl, arith, inl, inr, Bool, true, false,
  some, none, Option, if◌then◌else◌, Bool-cases,
}
use almorina_os.Prelude.Fault.{◌>>=◌}
use almorina_os.Scheduler.{Scheduler, Pcb, max_tasks, put, set_next}
use almorina_os.Scheduler.Process.{find_slot, occupy, enqueue, pcb_alloc}

-- What the search finds: the first slot from `i` on that is not used, if there is one.
abbrev pub Searched : ℕ → ℕ → (ℕ → Pcb) → Option ℕ → Type 0
Searched n i pcb none = (j : ℕ) → i ≤ j → j < i + n → (pcb j).used ≡ true
Searched n i pcb (some r) =
    (i ≤ r) × (r < i + n) × ((pcb r).used ≡ false) × ((j : ℕ) → i ≤ j → j < r → (pcb j).used ≡ true)

Searched-step :
    (n i : ℕ) (pcb : ℕ → Pcb)
    → (pcb i).used ≡ true
    → (o : Option ℕ) → Searched n (i + 1) pcb o
    → Searched (suc n) i pcb o
Searched-step n i pcb used none rest = λ j lo hi. elim (ℕ_discrete j i) [
  | yes here ↦ ground (arith, here)
  | no later ↦ rest j (omega arith) (omega arith)
]
Searched-step n i pcb used (some r) (lo, hi, free, before) = (
  omega arith,
  omega arith,
  free,
  λ j from to. elim (ℕ_discrete j i) [
    | yes here ↦ ground (arith, here)
    | no later ↦ before j (omega arith) to
  ],
)

pub find_slot-Searched : (n i : ℕ) (pcb : ℕ → Pcb) → Searched n i pcb (find_slot n i pcb)
unfolding find_slot
find_slot-Searched zero i pcb = λ j lo hi. absurd (omega arith)
find_slot-Searched (suc n) i pcb = elim (Bool-cases (pcb i).used) [
  | inl used ↦
      rw used
        (Searched-step n i pcb used (find_slot n (i + 1) pcb) (find_slot-Searched n (i + 1) pcb))
  | inr free ↦ rw free (omega arith, omega arith, free, λ j lo hi. absurd (omega arith))
]

-- Another slot, under `put`.
put-other : (i j : ℕ) (p : Pcb) (s : Scheduler) → j ≢ i → (put i p s).pcb j ≡ s.pcb j
put-other i j p s other = ground arith

-- What taking slot `i` leaves of the slots: `i` is used, and no other flag has changed.
abbrev pub SlotTaken : ℕ → Scheduler → Scheduler → Type 0
SlotTaken i s t = ((t.pcb i).used ≡ true) × ((j : ℕ) → j ≢ i → (t.pcb j).used ≡ (s.pcb j).used)

-- The ready list has an end to hang a task on.
abbrev pub HasEnd : Scheduler → Type 0
HasEnd s = (s.is_first ≡ true) ⊎ (s.end_of_ready_list ≢ none)

-- What hanging slot `i` on the list keeps and sets.
abbrev Hung : ℕ → Scheduler → Scheduler → Type 0
Hung i s t =
    ((j : ℕ) → (t.pcb j).used ≡ (s.pcb j).used)
    × ((j : ℕ) → (t.pcb j).tos ≡ (s.pcb j).tos)
    × (t.end_of_ready_list ≡ some i)

hang :
    (i : ℕ) (s : Scheduler) (e : Option ℕ)
    → e ≢ none
    → (t : Scheduler) × ((set_next e (some i) s >>= λ t.
          some (record t { end_of_ready_list = some i }))
        ≡ some t)
      × Hung i s t
hang i s none here = absurd (here refl)
hang i s (some e) here =
    let p = s.pcb e in
    (
      record (put e (record p { next = some i }) s) { end_of_ready_list = some i },
      refl,
      ((λ j. ground arith), (λ j. ground arith), refl),
    )

hang_at_start :
    (i : ℕ) (s : Scheduler) (first : Bool)
    → (first ≡ true) ⊎ (s.end_of_ready_list ≢ none)
    → (t : Scheduler) × ((let s' =
            if first
            then record s {
              start_of_ready_list = some i;
              end_of_ready_list = some i;
              is_first = false;
            }
            else s in
          set_next s'.end_of_ready_list (some i) s' >>= λ t.
          some (record t { end_of_ready_list = some i }))
        ≡ some t)
      × Hung i s t
hang_at_start i s true end =
    hang i (record s { start_of_ready_list = some i; end_of_ready_list = some i; is_first = false })
      (some i) (λ e. ground (arith, e))
hang_at_start i s false end = hang i s s.end_of_ready_list (ground (arith, end))

enqueue_lem :
    (i : ℕ) (s : Scheduler) → HasEnd s → (t : Scheduler) × (enqueue i s ≡ some t) × Hung i s t
unfolding enqueue
enqueue_lem i s end = hang_at_start i s s.is_first end

occupy-HasEnd : (i : ℕ) (s : Scheduler) → HasEnd s → HasEnd (occupy i s)
unfolding occupy
occupy-HasEnd i s end = end

-- What `pcb_alloc` does: with all 256 slots used it changes nothing; else it takes the first that is
-- not, which then has the stack of that slot and ends the ready list, while no other slot changes
-- its flag or its stack.
abbrev pub Allocated : Scheduler → Option ℕ × Scheduler → Type 0
Allocated s (none, t) = (t ≡ s) × ((j : ℕ) → j < max_tasks → (s.pcb j).used ≡ true)
Allocated s (some i, t) =
    (i < max_tasks)
    × ((s.pcb i).used ≡ false)
    × ((j : ℕ) → j < i → (s.pcb j).used ≡ true)
    × SlotTaken i s t
    × ((t.pcb i).tos ≡ (0x181 + i) * 2 ^ 12)
    × ((j : ℕ) → j ≢ i → (t.pcb j).tos ≡ (s.pcb j).tos)
    × (t.end_of_ready_list ≡ some i)

occupied-Allocated :
    (i : ℕ) (s t : Scheduler)
    → Searched max_tasks 0 s.pcb (some i)
    → Hung i (occupy i s) t
    → Allocated s (some i, t)
unfolding occupy
occupied-Allocated i s t (_, below, free, before) (used, tos, end) = (
  below,
  free,
  (λ j lt. before j (omega arith) lt),
  (ground (arith, used i), λ j other. ground (arith, used j, other)),
  ground (arith, tos i),
  (λ j other. ground (arith, tos j, other)),
  end,
)

-- On a ready list with an end to hang a task on (or with the flag that starts it), `pcb_alloc`
-- succeeds: where all 256 slots are used it returns null and changes nothing; else it takes the
-- first slot that is not used, gives it its own stack at page 0x181 plus its index and ends the
-- ready list with it, and no other slot changes its `used` flag or its stack.
pcb_alloc_lem :
    (s : Scheduler) → HasEnd s → (r : Option ℕ × Scheduler) × (pcb_alloc s ≡ some r) × Allocated s r
unfolding pcb_alloc
pcb_alloc_lem s end =
    let found = find_slot-Searched max_tasks 0 s.pcb in
    allocated (find_slot max_tasks 0 s.pcb) found
  where
    allocated :
        (o : Option ℕ)
        → Searched max_tasks 0 s.pcb o
        → (r : Option ℕ × Scheduler) × (elim o [
          | none ↦ some (none, s)
          | some i ↦ enqueue i (occupy i s) >>= λ s'. some (some i, s')
        ]
            ≡ some r)
          × Allocated s r
    allocated none full = ((none, s), refl, (refl, λ j lt. full j (omega arith) (omega arith)))
    allocated (some i) found =
        let (t, runs, hung) = enqueue_lem i (occupy i s) (occupy-HasEnd i s end) in
        ((some i, t), rw runs refl, occupied-Allocated i s t found hung)
