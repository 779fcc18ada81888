-- ===== src/Interrupts/Handlers.antt =====
-- The interrupt handlers of src/c-code/interrupts.c. A handler that never returns is the screen that
-- it stops at; what `printf` prints of a text without directives is the text.
use almorina_os.Prelude.{ℕ, Bool, Option, some, List, [], ◌∷◌}
use almorina_os.Prelude.Fault.{◌>>=◌}
use almorina_os.Stdio.{Stdio, set_fg_color}
use almorina_os.Stdio.Decimal.{print}
use almorina_os.Keyboard.{Keyboard, keyboard_handler}
use almorina_os.Scheduler.{Scheduler}
use almorina_os.Scheduler.Process.{irq_schedule_handler}
use almorina_os.Interrupts.{PortAccess, in_b, pic_end_master}
use almorina_os.Interrupts.Timer.{Doubles, Pit, pit_tick, pit_get_counter}

-- WHITE
abbrev pub white : ℕ
white = 15

abbrev page_fault : List ℕ
page_fault =
    b'E' ∷ b'R' ∷ b'R' ∷ b'O' ∷ b'R' ∷ b':' ∷ b' ' ∷ b'P' ∷ b'a' ∷ b'g' ∷ b'e' ∷ b' ' ∷ b'F' ∷ b'a'
    ∷ b'u' ∷ b'l' ∷ b't' ∷ b' ' ∷ b'd' ∷ b'e' ∷ b't' ∷ b'e' ∷ b'c' ∷ b't' ∷ b'e' ∷ b'd' ∷ b' '
    ∷ b':' ∷ b'[' ∷ 10 ∷ []

abbrev zero_devision : List ℕ
zero_devision =
    b'E' ∷ b'R' ∷ b'R' ∷ b'O' ∷ b'R' ∷ b':' ∷ b' ' ∷ b'Y' ∷ b'o' ∷ b'u' ∷ b' ' ∷ b'c' ∷ b'a' ∷ b'n'
    ∷ b'n' ∷ b'o' ∷ b't' ∷ b' ' ∷ b'd' ∷ b'e' ∷ b'v' ∷ b'i' ∷ b'd' ∷ b'e' ∷ b' ' ∷ b'b' ∷ b'y'
    ∷ b' ' ∷ b'z' ∷ b'e' ∷ b'r' ∷ b'o' ∷ b',' ∷ b' ' ∷ b's' ∷ b'i' ∷ b'l' ∷ b'l' ∷ b'y' ∷ b' '
    ∷ b':' ∷ b'P' ∷ 10 ∷ 10 ∷ []

unfoldable pub page_fault_handler : Stdio → Stdio
page_fault_handler io = print page_fault (set_fg_color white io)

unfoldable pub zero_devision_handler : Stdio → Stdio
zero_devision_handler io = print zero_devision (set_fg_color white io)

-- `scancode` is what port 0x60 holds.
unfoldable pub key_board_handler :
    ℕ → Keyboard → Stdio → Option (Keyboard × Stdio × List PortAccess)
key_board_handler scancode k io =
    keyboard_handler scancode k io >>= λ r. some (r.0, r.1, in_b 0x60 ∷ pic_end_master)

-- The accesses to the ports come before the switch of tasks. `recent` compares times, and `stored` is
-- the word of the stack that the switch stores as the task's time.
unfoldable pub pit_tick_handler :
    (ℕ → ℕ → Bool) → Doubles → ℕ → ℕ → Pit → Scheduler → Option (Pit × List PortAccess × Scheduler)
unfolding pit_tick
pit_tick_handler recent ops rsp stored timer s =
    let t = pit_tick ops timer in
    irq_schedule_handler recent rsp stored (pit_get_counter t) s >>= λ s'.
    some (t, pic_end_master, s')
