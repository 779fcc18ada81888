-- ===== src/Interrupts/Ticks.antt =====
-- A tick of the timer turns the queue of tasks round.
use almorina_os.Prelude.{
  ℕ, zero, suc, ◌+◌, ◌/◌, ◌≤◌, ◌<◌, ◌≡◌, ◌⊎◌, inl, inr, refl, ap, ◌∙◌, arith, Bool, true, false,
  Option, some, List, ◌∷◌, ◌++◌, [],
}
use almorina_os.Prelude.Fault.{◌>>=◌}
use almorina_os.Scheduler.{
  Scheduler, Pcb, terminated, paused, is_state, lock_scheduler, unlock_scheduler, schedule,
}
use almorina_os.Scheduler.Process.{tick_slot, tick_slots, irq_schedule_handler}
use almorina_os.Scheduler.RoundRobin.Queue.{IsQueue, schedule-IsQueue}
use almorina_os.Interrupts.{out_b, pic_end_master, pit_get_frequency}
use almorina_os.Interrupts.Timer.{Doubles, Pit, pit_tick, pit_get_counter}
use almorina_os.Interrupts.Handlers.{pit_tick_handler}

module _ (recent : ℕ → ℕ → Bool) where
  -- The timer leaves the slot alone: it is free, its task has ended, or its task was switched to a
  -- short time ago and is not paused.
  abbrev pub IsQuiet : ℕ → Pcb → Type 0
  IsQuiet now p =
      (p.used ≡ false)
      ⊎ (is_state p.state terminated ≡ true)
      ⊎ (recent now p.switch_time ≡ true) × (is_state p.state paused ≡ false)

  tick_slot-quiet :
      (now i : ℕ) (s : Scheduler) → IsQuiet now (s.pcb i) → tick_slot recent now i s ≡ some s
  unfolding tick_slot
  tick_slot-quiet now i s (inl free) = rw free refl
  tick_slot-quiet now i s (inr (inl ended)) = ground (arith, ended)
  tick_slot-quiet now i s (inr (inr (soon, runs))) = ground (arith, soon, runs)

  tick_slots-quiet :
      (now n i : ℕ) (s : Scheduler)
      → ((j : ℕ) → i ≤ j → j < i + n → IsQuiet now (s.pcb j))
      → tick_slots recent now n i s ≡ some s
  unfolding tick_slots
  tick_slots-quiet now zero i s quiet = refl
  tick_slots-quiet now (suc n) i s quiet =
      ap (λ o. o >>= tick_slots recent now n (i + 1))
        (tick_slot-quiet now i s (quiet i (omega arith) (omega arith)))
      ∙ tick_slots-quiet now n (i + 1) s (λ j lo hi. quiet j (omega arith) (omega arith))

relocked-IsQueue :
    (c h : ℕ) (q : List ℕ) (s : Scheduler)
    → IsQueue s c h q
    → IsQueue (unlock_scheduler (lock_scheduler s)) c h q
unfolding lock_scheduler unlock_scheduler
relocked-IsQueue c h q s is = record {
  last = is.last;
  current = is.current;
  start = is.start;
  end = is.end;
  linked = is.linked;
  runs = is.runs;
  waits = is.waits;
  distinct = is.distinct;
  no_idle = is.no_idle;
  free = is.free;
}

-- What the counter is after one more tick: the time of one tick is 1 divided by the timer's rate.
abbrev pub count : Doubles → Pit → ℕ
count ops timer =
    ops.add timer.counter (ops.divide (ops.of_int 1) (ops.of_int (1193182 / timer.divisor)))

-- While two tasks or more wait, and the timer finds no task to pause or to wake at the new time, its
-- interrupt adds the time of one tick to the counter, keeps the divisor, sends the end of the
-- interrupt, 0x20, to the port 0x20 of the master controller, and turns the queue: the first task that
-- waits runs, and the task that was interrupted waits behind all others. The rate of the ticks is
-- 1193182 over the divisor.
pub pit_tick_handler-IsQueue :
    (recent : ℕ → ℕ → Bool) (ops : Doubles) (rsp stored c h k : ℕ) (q : List ℕ) (timer : Pit)
    (s : Scheduler)
    → ((j : ℕ) → 1 ≤ j → j < 256 → IsQuiet recent (count ops timer) (s.pcb j))
    → IsQueue s c h (k ∷ q)
    → (t : Pit) × (s' : Scheduler) × (pit_tick_handler recent ops rsp stored timer s
        ≡ some (t, out_b 0x20 0x20 ∷ [], s'))
      × (t.divisor ≡ timer.divisor)
      × (t.counter ≡ count ops timer)
      × IsQueue s' h k (q ++ c ∷ [])
unfolding pit_tick_handler irq_schedule_handler lock_scheduler pic_end_master pit_tick
    pit_get_counter pit_get_frequency
pit_tick_handler-IsQueue recent ops rsp stored c h k q timer s quiet is =
    let t : Pit = record timer { counter = count ops timer } in
    let now = count ops timer in
    let ports = out_b 0x20 0x20 ∷ [] in
    let r = unlock_scheduler (lock_scheduler s) in
    let (s', runs, queue, _, _) =
      schedule-IsQueue rsp stored c h k q r (relocked-IsQueue c h (k ∷ q) s is) in
    (
      t,
      s',
      ap
            (λ (o : Option Scheduler).
              (o >>= λ u. schedule rsp stored (unlock_scheduler u)) >>= λ v. some (t, ports, v))
            (tick_slots-quiet recent now 255 1 (lock_scheduler s) quiet)
          ∙ ap (λ (o : Option Scheduler). o >>= λ v. some (t, ports, v)) runs,
      refl,
      refl,
      queue,
    )
