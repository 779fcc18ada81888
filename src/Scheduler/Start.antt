-- ===== src/Scheduler/Start.antt =====
-- The stack of a new process, and a switch that is put off.
use mathlib.Core.Path.{subst}
use almorina_os.Prelude.{ℕ, ◌+◌, ◌-◌, ◌≤◌, ◌<◌, ◌^◌, ◌≡◌, refl, sym, ap, ◌∙◌, arith, false, some}
use almorina_os.Prelude.Words.{sub64}
use almorina_os.Prelude.Store.{update}
use almorina_os.Prelude.Fault.{◌>>=◌}
use almorina_os.Scheduler.{Scheduler, lock_task, unlock_task, schedule, increment, unlock_scheduler}
use almorina_os.Scheduler.Process.{first_frame}

sub64-8 : (a : ℕ) → 8 ≤ a → a < 2 ^ 64 → sub64 a 8 ≡ a - 8
sub64-8 a big small = omega arith

-- The stack that `first_frame` builds below `tos`, which lies 48 bytes or more above 0: six words,
-- four of them 0, then the entry point and behind it the startup routine; the words from `tos` on
-- stay as they were.
first_frame_lem :
    (startup ent tos : ℕ) (words : ℕ → ℕ)
    → 48 ≤ tos
    → tos < 2 ^ 64
    → (top : ℕ) × (words' : ℕ → ℕ) × (first_frame startup ent tos words ≡ (top, words'))
      × (top + 48 ≡ tos)
      × (words' (top + 40) ≡ startup)
      × (words' (top + 32) ≡ ent)
      × (words' (top + 24) ≡ 0)
      × (words' (top + 16) ≡ 0)
      × (words' (top + 8) ≡ 0)
      × (words' top ≡ 0)
      × ((a : ℕ) → tos ≤ a → words' a ≡ words a)
unfolding first_frame
first_frame_lem startup ent tos words big small =
    let first : sub64 tos 8 ≡ tos - 8 = sub64-8 tos (omega arith) small in
    let second : sub64 (tos - 8) 8 ≡ tos - 16 = omega arith in
    let third : sub64 (tos - 16) 8 ≡ tos - 24 = omega arith in
    let fourth : sub64 (tos - 24) 8 ≡ tos - 32 = omega arith in
    let fifth : sub64 (tos - 32) 8 ≡ tos - 40 = omega arith in
    let sixth : sub64 (tos - 40) 8 ≡ tos - 48 = omega arith in
    (
      tos - 48,
      update
          (update
            (update (update (update (update words (tos - 8) startup) (tos - 16) ent) (tos - 24) 0)
              (tos - 32) 0)
            (tos - 40) 0)
          (tos - 48) 0,
      rw (first, second, third, fourth, fifth, sixth) refl,
      omega arith,
      ground arith,
      ground arith,
      ground arith,
      ground arith,
      ground arith,
      ground arith,
      λ a above. ground arith,
    )

abbrev PutOff : ℕ → ℕ → ℕ → ℕ → Scheduler → Type 0
PutOff rsp now rsp' now' s = (schedule rsp now (lock_task s) >>= unlock_task rsp' now') ≡ (
    schedule rsp' now'
      (record s { interrupts = false; irq_disable_counter = increment s.irq_disable_counter })
    >>= λ t. some (unlock_scheduler t))

put_off :
    (rsp now rsp' now' : ℕ) (s : Scheduler)
    → PutOff rsp now rsp' now'
        (record s { postponed_tasks_counter = 0; postponed_tasks_flag = false })
unfolding lock_task schedule unlock_task
put_off rsp now rsp' now' s = refl

-- From no lock on tasks and no switch put off: `lock_task`, then `schedule`, then `unlock_task`
-- give what `schedule` gives at the time of the unlock, with the scheduler still locked, followed
-- by the unlock: the switch is put off, not lost.
pub schedule-postponed :
    (rsp now rsp' now' : ℕ) (s : Scheduler)
    → s.postponed_tasks_counter ≡ 0
    → s.postponed_tasks_flag ≡ false
    → (schedule rsp now (lock_task s) >>= unlock_task rsp' now') ≡ (
        schedule rsp' now'
          (record s { interrupts = false; irq_disable_counter = increment s.irq_disable_counter })
        >>= λ t. some (unlock_scheduler t))
schedule-postponed rsp now rsp' now' s none_held none_waits =
    let plain : Scheduler = record s {
      postponed_tasks_counter = 0;
      postponed_tasks_flag = false;
    } in
    let same : plain ≡ s =
      ap (λ n. record s { postponed_tasks_counter = n; postponed_tasks_flag = false })
        (sym none_held)
      ∙ ap (λ b. record s { postponed_tasks_flag = b }) (sym none_waits) in
    subst (PutOff rsp now rsp' now') same (put_off rsp now rsp' now' s)
