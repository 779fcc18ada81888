-- ===== src/Scheduler/Ready.antt =====
-- `add_ready_process` on a ready list that has tasks.
use almorina_os.Prelude.{ℕ, ◌≡◌, ◌≢◌, refl, arith, some, ◌==◌, if◌then◌else◌, some_inj}
use almorina_os.Prelude.Fault.{◌>>=◌}
use almorina_os.Scheduler.{Scheduler, ready, put, set_state}
use almorina_os.Scheduler.Tasks.{add_ready_process}

abbrev added : ℕ → ℕ → Scheduler → Scheduler
added head i s =
    let s' = set_state i ready s in
    let p = s'.pcb head in
    record (put head (record p { next = some i }) s') { end_of_ready_list = some i }

add_ready_process-added :
    (head i : ℕ) (s : Scheduler)
    → s.start_of_ready_list ≡ some head
    → add_ready_process (some i) s ≡ some (added head i s)
unfolding add_ready_process
add_ready_process-added head i s starts = rw starts refl

-- The links after one task is added.
added-next :
    (head i : ℕ) (s : Scheduler) (k : ℕ)
    → ((added head i s).pcb k).next ≡ (if k == head then some i else (s.pcb k).next)
added-next head i s k = ground arith

-- Adding two tasks, one after the other, to a ready list that starts with `head` makes the second
-- the successor of `head` and the end of the list; every slot that then points to the first did so
-- before, and is not `head`: nothing on the list leads to the first task any more.
add_ready_process-twice :
    (head i j : ℕ) (s : Scheduler)
    → s.start_of_ready_list ≡ some head
    → i ≢ j
    → (t : Scheduler) × ((add_ready_process (some i) s >>= add_ready_process (some j)) ≡ some t)
      × (t.start_of_ready_list ≡ some head)
      × ((t.pcb head).next ≡ some j)
      × (t.end_of_ready_list ≡ some j)
      × ((k : ℕ) → (t.pcb k).next ≡ some i → ((s.pcb k).next ≡ some i) × (k ≢ head))
unfolding add_ready_process
add_ready_process-twice head i j s starts distinct = (
  added head j (added head i s),
  rw (add_ready_process-added head i s starts)
      (add_ready_process-added head j (added head i s) starts),
  starts,
  ground (arith, added-next head j (added head i s) head),
  refl,
  λ k here.
      grind (arith, here, some_inj, added-next head j (added head i s) k, added-next head i s k),
)
