-- ===== src/Scheduler/Process.antt =====
-- The slots of `pcbArray`: the first process, new processes with their stacks, and the pass over all
-- slots that the timer makes. `recent now t` stands for the test `now - t < MAX_TASK_TIME` on
-- doubles, and `words` for the stacks, a word at each address.
use almorina_os.Prelude.{
  ℕ, zero, suc, ◌+◌, ◌*◌, ◌^◌, Bool, true, false, not, Option, none, some, if◌then◌else◌,
}
use almorina_os.Prelude.Words.{u64, sub64}
use almorina_os.Prelude.Store.{update}
use almorina_os.Prelude.Fault.{◌>>=◌}
use almorina_os.Scheduler.{
  Scheduler, Pcb, ready, running, paused, terminated, max_tasks, put, set_state, set_next, is_state,
  lock_scheduler, unlock_scheduler, schedule,
}
use almorina_os.Scheduler.Tasks.{add_ready_process}

-- The loop over the slots behind the first.
unfoldable pub clear_slots : ℕ → ℕ → Scheduler → Scheduler
clear_slots zero i s = s
clear_slots (suc n) i s =
    let p = s.pcb i in clear_slots n (i + 1) (put i (record p { used = false }) s)

-- `cr3` is what `GetCR3` returns.
unfoldable pub scheduler_init : ℕ → Scheduler → Scheduler
scheduler_init cr3 s =
    let cleared = clear_slots 255 1 s in
    let first : Pcb = record {
      tos = 0;
      virt_addr = cr3;
      next = none;
      state = running;
      used = true;
      switch_time = 0;
    } in
    record (put 0 first cleared) {
      current = some 0;
      start_of_ready_list = some 0;
      end_of_ready_list = some 0;
    }

-- The first slot from `i` on that is not used, over the `n` slots that are left.
unfoldable pub find_slot : ℕ → ℕ → (ℕ → Pcb) → Option ℕ
find_slot zero i pcb = none
find_slot (suc n) i pcb =
    let rest = find_slot n (i + 1) pcb in if (pcb i).used then rest else some i

-- The new occupant of slot `i`, on its own stack.
unfoldable pub occupy : ℕ → Scheduler → Scheduler
occupy i s =
    let p = s.pcb i in
    put i
      (record p {
        used = true;
        switch_time = 0;
        tos = u64 ((0x181 + i) * 2 ^ 12);
        next = some 0;
        state = ready;
      })
      s

-- The new task goes to the end of the ready list, which the first one starts.
unfoldable pub enqueue : ℕ → Scheduler → Option Scheduler
enqueue i s =
    let s' =
      if s.is_first
      then record s { start_of_ready_list = some i; end_of_ready_list = some i; is_first = false }
      else s in
    set_next s'.end_of_ready_list (some i) s' >>= λ t.
    some (record t { end_of_ready_list = some i })

unfoldable pub pcb_alloc : Scheduler → Option (Option ℕ × Scheduler)
unfolding find_slot occupy enqueue
pcb_alloc s = elim (find_slot max_tasks 0 s.pcb) [
  | none ↦ some (none, s)
  | some i ↦ enqueue i (occupy i s) >>= λ s'. some (some i, s')
]

-- PUSH: the new top of the stack, and the stacks.
abbrev pub push : ℕ → ℕ × (ℕ → ℕ) → ℕ × (ℕ → ℕ)
push val (tos, words) = (sub64 tos 8, update words (sub64 tos 8) val)

-- The words that a new process starts with, the last one on top.
unfoldable pub first_frame : ℕ → ℕ → ℕ → (ℕ → ℕ) → ℕ × (ℕ → ℕ)
first_frame startup ent tos words =
    push 0 (push 0 (push 0 (push 0 (push ent (push startup (tos, words))))))

-- The stack and the address space of the slot that was taken, if one was.
unfoldable pub prepare : ℕ → ℕ → ℕ → (ℕ → ℕ) → Option ℕ × Scheduler → Option ℕ × Scheduler × (ℕ → ℕ)
unfolding first_frame
prepare startup ent cr3 words (none, t) = (none, t, words)
prepare startup ent cr3 words (some i, t) =
    let p = t.pcb i in
    let (tos, words') = first_frame startup ent p.tos words in
    (some i, put i (record p { tos = tos; virt_addr = cr3 }) t, words')

-- `startup` is the address of `process_startup`, and `ent` the entry point.
unfoldable pub process_create :
    ℕ → ℕ → ℕ → Scheduler → (ℕ → ℕ) → Option (Option ℕ × Scheduler × (ℕ → ℕ))
unfolding pcb_alloc prepare
process_create startup ent cr3 s words = pcb_alloc s >>= λ r. some (prepare startup ent cr3 words r)

module _ (recent : ℕ → ℕ → Bool) where
  -- One slot under the timer.
  unfoldable pub tick_slot : ℕ → ℕ → Scheduler → Option Scheduler
  tick_slot now i s =
      let p = s.pcb i in
      if not p.used
      then some s
      else if is_state p.state terminated
      then some s
      else if recent now p.switch_time
      then (if is_state p.state paused then add_ready_process (some i) s else some s)
      else some (set_state i paused s)

  unfoldable pub tick_slots : ℕ → ℕ → ℕ → Scheduler → Option Scheduler
  tick_slots now zero i s = some s
  tick_slots now (suc n) i s = tick_slot now i s >>= tick_slots now n (i + 1)

  -- `now` is what `PIT_get_counter` returns, and `stored` the word that the switch stores as a time.
  unfoldable pub irq_schedule_handler : ℕ → ℕ → ℕ → Scheduler → Option Scheduler
  irq_schedule_handler rsp stored now s =
      tick_slots now 255 1 (lock_scheduler s) >>= λ t. schedule rsp stored (unlock_scheduler t)
