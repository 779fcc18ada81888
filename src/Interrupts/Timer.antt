-- ===== src/Interrupts/Timer.antt =====
-- The timer of src/c-code/pit.c. A `double` is its pattern, and what the processor computes of such
-- patterns is the record `Doubles`. A halt ends with an interrupt, of the timer or another.
use almorina_os.Prelude.{ℕ, Bool, Option, none, some, List, [], ◌∷◌, if◌then◌else◌}
use almorina_os.Interrupts.{pit_get_frequency}

-- The operations of the processor on patterns of `double`.
pub record Doubles : Type 0 where
  pub add : ℕ → ℕ → ℕ
  pub divide : ℕ → ℕ → ℕ
  pub of_int : ℕ → ℕ
  pub less : ℕ → ℕ → Bool

-- `PIT_divisor` and `pit_counter`
pub record Pit : Type 0 where
  pub divisor : ℕ
  pub counter : ℕ

module _ (ops : Doubles) where
  unfoldable pub pit_tick : Pit → Pit
  unfolding pit_get_frequency
  pit_tick t = record t {
    counter =
        ops.add t.counter (ops.divide (ops.of_int 1) (ops.of_int (pit_get_frequency t.divisor)));
  }

  -- The loop of `Sleepd`: each halt ends with an interrupt, which is the timer's or is not. Without
  -- one the wait goes on, and the result is `none`.
  unfoldable pub sleep_loop : ℕ → List Bool → Pit → Option Pit
  unfolding pit_tick
  sleep_loop limit [] t = if ops.less t.counter limit then none else some t
  sleep_loop limit (ticks ∷ halts) t =
      let rest = sleep_loop limit halts (if ticks then pit_tick t else t) in
      if ops.less t.counter limit then rest else some t

  unfoldable pub sleepd : ℕ → List Bool → Pit → Option Pit
  unfolding sleep_loop
  sleepd seconds halts t = sleep_loop (ops.add t.counter seconds) halts t

  unfoldable pub sleep : ℕ → List Bool → Pit → Option Pit
  unfolding sleepd
  sleep milliseconds halts t =
      sleepd (ops.divide (ops.of_int milliseconds) (ops.of_int 1000)) halts t

unfoldable pub pit_set_counter : ℕ → Pit → Pit
pit_set_counter seconds t = record t { counter = seconds }

unfoldable pub pit_get_counter : Pit → ℕ
pit_get_counter t = t.counter
