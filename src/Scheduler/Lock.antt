-- ===== src/Scheduler/Lock.antt =====
-- The nested locks: interrupts are off while a lock is held.
use native.Mathlib.Decide.{ℕ_discrete}
use almorina_os.Prelude.{
  ℕ, ◌+◌, ◌-◌, ◌<◌, ◌^◌, ◌≡◌, ◌≢◌, ◌⊎◌, refl, sym, arith, inl, inr, true, false, List, [], ◌∷◌,
  length, ◌==◌, if◌then◌else◌,
}
use almorina_os.Scheduler.{Scheduler, lock_scheduler, unlock_scheduler, decrement}

-- Interrupts are off while the counter is not 0.
abbrev pub IsMasked : Scheduler → Type 0
IsMasked s = s.irq_disable_counter ≢ 0 → s.interrupts ≡ false

-- A nest of locks: what `lock_scheduler` and `unlock_scheduler` are called in turn.
pub data Call : Type 0 where
  lock unlock : Call

unfoldable pub run : List Call → Scheduler → Scheduler
unfolding lock_scheduler unlock_scheduler
run [] s = s
run (lock ∷ cs) s = run cs (lock_scheduler s)
run (unlock ∷ cs) s = run cs (unlock_scheduler s)

-- The depth after the calls, from a depth `n`; none if an unlock has no lock.
abbrev pub Nested : ℕ → List Call → ℕ → Type 0
Nested n [] d = d ≡ n
Nested n (lock ∷ cs) d = Nested (n + 1) cs d
Nested n (unlock ∷ cs) d = (0 < n) × Nested (n - 1) cs d

lock_scheduler_lem :
    (s : Scheduler)
    → s.irq_disable_counter + 1 < 2 ^ 32
    → ((lock_scheduler s).irq_disable_counter ≡ s.irq_disable_counter + 1)
      × ((lock_scheduler s).interrupts ≡ false)
unfolding lock_scheduler
lock_scheduler_lem s h = (omega arith, refl)

unlock_scheduler_lem :
    (s : Scheduler)
    → 0 < s.irq_disable_counter
    → s.irq_disable_counter < 2 ^ 32
    → ((unlock_scheduler s).irq_disable_counter ≡ s.irq_disable_counter - 1)
      × ((unlock_scheduler s).interrupts
          ≡ (if s.irq_disable_counter == 1 then true else s.interrupts))
unfolding unlock_scheduler
unlock_scheduler_lem s pos small =
    let down : decrement s.irq_disable_counter ≡ s.irq_disable_counter - 1 = omega arith in
    let last : (s.irq_disable_counter - 1 == 0) ≡ (s.irq_disable_counter == 1) = ground arith in
    (down, rw (down, last))

-- After any calls of `lock_scheduler` and `unlock_scheduler` in which no unlock comes before its
-- lock, the counter is the number of locks held; if interrupts were off under a lock before, they
-- are off while one is held now; and if a lock was held or interrupts were on before, then they
-- are on when all locks are given back. The counter must not overflow.
pub run-IsMasked :
    (cs : List Call) (s : Scheduler) (d : ℕ)
    → Nested s.irq_disable_counter cs d
    → s.irq_disable_counter + length cs < 2 ^ 31
    → IsMasked s
    → ((run cs s).irq_disable_counter ≡ d)
      × IsMasked (run cs s)
      × ((0 < s.irq_disable_counter) ⊎ (s.interrupts ≡ true) → d ≡ 0 → (run cs s).interrupts ≡ true)
unfolding run
run-IsMasked [] s d nest small masked = (
  sym nest,
  masked,
  λ held none_left. elim held [ inl some_held ↦ absurd (omega arith) | inr on ↦ on ],
)
run-IsMasked (lock ∷ cs) s d nest small masked =
    let (up, off) = lock_scheduler_lem s (omega arith) in
    let (count, masked', on) =
      run-IsMasked cs (lock_scheduler s) d (rw up nest) (omega arith) (λ _. off) in
    (count, masked', λ _ none_left. on (inl (omega arith)) none_left)
run-IsMasked (unlock ∷ cs) s d (pos, nest) small masked =
    let (down, flag) = unlock_scheduler_lem s pos (omega arith) in
    let (count, masked', on) =
      run-IsMasked cs (unlock_scheduler s) d (rw down nest) (omega arith)
        (λ held. ground (arith, masked (omega arith))) in
    (
      count,
      masked',
      λ _ none_left. elim (ℕ_discrete s.irq_disable_counter 1) [
        | yes last ↦ on (inr (ground arith)) none_left
        | no more ↦ on (inl (omega arith)) none_left
      ],
    )
