-- ===== src/Scheduler/Cleaner.antt =====
-- The loop of `tasks_cleaner` over the list of terminated tasks.
use mathlib.Core.Path.{subst}
use almorina_os.Prelude.{
  ℕ, zero, suc, ◌<◌, ◌≡◌, ◌≢◌, ◌⊎◌, inl, inr, refl, ◌∙◌, arith, length, List, [], ◌∷◌, false, some,
  none, Option,
}
use almorina_os.Scheduler.{Scheduler, Pcb, max_tasks}
use almorina_os.Scheduler.Tasks.{pcb_free, free_task, clean_loop}

-- The tasks that the links lead through, from a pointer on up to null.
abbrev pub Chain : (ℕ → Pcb) → Option ℕ → List ℕ → Type 0
Chain pcb none [] = Unit
Chain pcb (some i) (j ∷ l) = (i ≡ j) × Chain pcb (pcb i).next l
Chain pcb _ _ = ⊥

abbrev pub IsIn : ℕ → List ℕ → Type 0
IsIn j [] = ⊥
IsIn j (i ∷ l) = (j ≡ i) ⊎ IsIn j l

-- What the loop leaves when the list of terminated tasks leads through `l`: no list, and the slots
-- of `l` free; a slot that was free stays so, and the slots that are not on the list, the ready list
-- and the current task are as they were.
abbrev pub Cleaned : List ℕ → Scheduler → Scheduler → Type 0
Cleaned l s t =
    (t.terminated_task_list ≡ none)
    × ((j : ℕ) → IsIn j l → j < max_tasks → (t.pcb j).used ≡ false)
    × ((j : ℕ) → (s.pcb j).used ≡ false → j < max_tasks → (t.pcb j).used ≡ false)
    × ((j : ℕ) → ¬ IsIn j l → t.pcb j ≡ s.pcb j)
    × (t.start_of_ready_list ≡ s.start_of_ready_list)
    × (t.current ≡ s.current)

abbrev pub freed : ℕ → Scheduler → Scheduler
freed i s = pcb_free (some i) (record s { terminated_task_list = (s.pcb i).next })

freed-next : (i : ℕ) (s : Scheduler) (k : ℕ) → ((freed i s).pcb k).next ≡ (s.pcb k).next
unfolding pcb_free
freed-next i s k = ground arith

freed-other : (i : ℕ) (s : Scheduler) (k : ℕ) → k ≢ i → (freed i s).pcb k ≡ s.pcb k
unfolding pcb_free
freed-other i s k other = ground (arith, other)

pub freed-list : (i : ℕ) (s : Scheduler) → (freed i s).terminated_task_list ≡ (s.pcb i).next
unfolding pcb_free
freed-list i s = ground arith

freed-used :
    (i : ℕ) (s : Scheduler) (k : ℕ)
    → (k ≡ i) ⊎ ((s.pcb k).used ≡ false)
    → k < max_tasks
    → ((freed i s).pcb k).used ≡ false
unfolding pcb_free
freed-used i s k known small = ground (arith, known)

Chain-cong :
    (pcb pcb' : ℕ → Pcb)
    → ((k : ℕ) → (pcb' k).next ≡ (pcb k).next)
    → (o : Option ℕ) (l : List ℕ) → Chain pcb o l
    → Chain pcb' o l
Chain-cong pcb pcb' same none [] chain = chain
Chain-cong pcb pcb' same (some i) (j ∷ l) (here, chain) =
    (here, rw (same i) (Chain-cong pcb pcb' same (pcb i).next l chain))
Chain-cong pcb pcb' same none (j ∷ l) chain = absurd chain
Chain-cong pcb pcb' same (some i) [] chain = absurd chain

Cleaned-step :
    (i : ℕ) (l : List ℕ) (s t : Scheduler) → Cleaned l (freed i s) t → Cleaned (i ∷ l) s t
unfolding pcb_free
Cleaned-step i l s t (empty, listed, kept, other, start, current) = (
  empty,
  (λ j at small. elim at [
    | inl here ↦ kept j (freed-used i s j (inl here) small) small
    | inr later ↦ listed j later small
  ]),
  (λ j free small. kept j (freed-used i s j (inr free) small) small),
  (λ j off. other j (λ later. off (inr later)) ∙ freed-other i s j (λ here. off (inl here))),
  ground (arith, start),
  ground (arith, current),
)

pub clean_loop-some :
    (fuel i : ℕ) (s : Scheduler)
    → s.terminated_task_list ≡ some i
    → clean_loop (suc fuel) s ≡ clean_loop fuel (freed i s)
unfolding clean_loop free_task
clean_loop-some fuel i s is = rw is refl

-- One turn of the loop, from what it does with less fuel.
clean_step :
    (fuel : ℕ) (s : Scheduler) (o : Option ℕ)
    → s.terminated_task_list ≡ o
    → (l : List ℕ) → Chain s.pcb o l
    → length l < suc fuel
    → ((l : List ℕ) (s : Scheduler)
        → Chain s.pcb s.terminated_task_list l
        → length l < fuel
        → (t : Scheduler) × (clean_loop fuel s ≡ some t) × Cleaned l s t)
    → (t : Scheduler) × (clean_loop (suc fuel) s ≡ some t) × Cleaned l s t
unfolding clean_loop free_task
clean_step fuel s none is [] chain enough rest =
    (s, rw is refl, (is, (λ j at. absurd at), (λ j free _. free), (λ j _. refl), refl, refl))
clean_step fuel s (some i) is (j ∷ l) (here, chain) enough rest =
    let (t, runs, cleaned) =
      rest l (freed i s)
        (rw (freed-list i s)
          (Chain-cong s.pcb (freed i s).pcb (freed-next i s) (s.pcb i).next l chain))
        (omega arith) in
    (
      t,
      clean_loop-some fuel i s is ∙ runs,
      subst (λ j. Cleaned (j ∷ l) s t) here (Cleaned-step i l s t cleaned),
    )
clean_step fuel s none is (j ∷ l) chain enough rest = absurd chain
clean_step fuel s (some i) is [] chain enough rest = absurd chain

-- When the list of terminated tasks leads through `l` and the fuel is more than the length of `l`,
-- the loop of `tasks_cleaner` ends: the list is empty then, every slot of `l` is free, and no slot
-- off the list, nor the ready list or the current task, has changed.
pub clean_loop_lem :
    (fuel : ℕ) (l : List ℕ) (s : Scheduler)
    → Chain s.pcb s.terminated_task_list l
    → length l < fuel
    → (t : Scheduler) × (clean_loop fuel s ≡ some t) × Cleaned l s t
unfolding clean_loop free_task
clean_loop_lem zero l s chain enough = absurd (omega arith)
clean_loop_lem (suc fuel) l s chain enough =
    clean_step fuel s s.terminated_task_list refl l chain enough (clean_loop_lem fuel)
