-- ===== src/Scheduler/RoundRobin/Rounds.antt =====
-- Several turns of the queue.
use almorina_os.Prelude.{
  ℕ, zero, suc, ◌+◌, ◌≡◌, refl, ◌∙◌, arith, Option, some, List, [], ◌∷◌, ◌++◌, length, get_elem?,
}
use almorina_os.Prelude.Fault.{◌>>=◌}
use almorina_os.Scheduler.{Scheduler, schedule}
use almorina_os.Scheduler.RoundRobin.Queue.{IsQueue, schedule-IsQueue}

-- Switches one after the other: for each, the stack pointer that is saved and the time.
unfoldable pub schedules : List (ℕ × ℕ) → Scheduler → Option Scheduler
schedules [] s = some s
schedules ((rsp, now) ∷ ticks) s = schedule rsp now s >>= schedules ticks

get_elem?-append :
    (q : List ℕ) (c i t : ℕ) → get_elem? q i ≡ some t → get_elem? (q ++ c ∷ []) i ≡ some t
get_elem?-append [] c i t found = cc
get_elem?-append (x ∷ q) c zero t found = found
get_elem?-append (x ∷ q) c (suc i) t found = get_elem?-append q c i t found

-- Of two tasks or more that wait, the one behind `i` others runs after `i + 1` switches: no task
-- waits for ever.
pub schedules-get_elem? :
    (ticks : List (ℕ × ℕ)) (i c h k t : ℕ) (q : List ℕ) (s : Scheduler)
    → IsQueue s c h (k ∷ q)
    → get_elem? (h ∷ k ∷ q) i ≡ some t
    → length ticks ≡ i + 1
    → (s' : Scheduler) × (schedules ticks s ≡ some s') × (s'.current ≡ some t)
unfolding schedules
schedules-get_elem? [] i c h k t q s is found long = absurd (omega arith)
schedules-get_elem? ((rsp, now) ∷ []) zero c h k t q s is found long =
    let (s', runs, is', _, _) = schedule-IsQueue rsp now c h k q s is in
    (s', rw runs refl, is'.current ∙ found)
schedules-get_elem? ((rsp, now) ∷ x ∷ ticks) zero c h k t q s is found long = absurd (omega arith)
schedules-get_elem? ((rsp, now) ∷ ticks) (suc i) c h k t [] s is found long =
    let (s', runs, is', _, _) = schedule-IsQueue rsp now c h k [] s is in
    let (s'', rest, here) =
      schedules-get_elem? ticks i h k c t [] s' is' (get_elem?-append (k ∷ []) c i t found)
        (omega arith) in
    (s'', rw runs rest, here)
schedules-get_elem? ((rsp, now) ∷ ticks) (suc i) c h k t (j ∷ q) s is found long =
    let (s', runs, is', _, _) = schedule-IsQueue rsp now c h k (j ∷ q) s is in
    let (s'', rest, here) =
      schedules-get_elem? ticks i h k j t (q ++ c ∷ []) s' is'
        (get_elem?-append (k ∷ j ∷ q) c i t found) (omega arith) in
    (s'', rw runs rest, here)
