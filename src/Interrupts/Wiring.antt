-- ===== src/Interrupts/Wiring.antt =====
-- What the set-up of the interrupt controllers leaves in them. A controller is described as the
-- 8259 is: a first command word on its command port starts the set-up, the next three bytes on its
-- data port are the vector offset, the wiring and the mode, and any later one is the mask.
use almorina_os.Prelude.{ℕ, zero, suc, ◌≡◌, refl, List, [], ◌∷◌, ◌==◌, if◌then◌else◌}
use almorina_os.Interrupts.{
  PortAccess, out_b, in_b, io_wait, icw1, pic1_command, pic1_data, pic2_command, pic2_data,
  remap_pic,
}

pub record Controller : Type 0 where
  pub awaited : ℕ
  pub vector : ℕ
  pub wiring : ℕ
  pub mode : ℕ
  pub mask : ℕ

-- A byte on the data port.
data_byte : ℕ → Controller → Controller
data_byte value c = elim c.awaited [
  | zero ↦ record c { mask = value }
  | suc zero ↦ record c { awaited = 0; mode = value }
  | suc (suc zero) ↦ record c { awaited = 1; wiring = value }
  | suc (suc (suc n)) ↦ record c { awaited = 2; vector = value }
]

-- One access, seen by the controller with these two ports.
step : ℕ → ℕ → PortAccess → Controller → Controller
unfolding data_byte
step command port (out_b at value) c =
    if at == command
    then (if value == icw1 then record c { awaited = 3 } else c)
    else if at == port
    then data_byte value c
    else c
step command port (in_b at) c = c
step command port io_wait c = c

unfoldable pub after : ℕ → ℕ → List PortAccess → Controller → Controller
unfolding step
after command port [] c = c
after command port (x ∷ xs) c = after command port xs (step command port x c)

-- `remap_pic` leaves both controllers set up, whatever they were before: the first sends vectors
-- from 0x20 on and has the second on line 2, the second sends them from 0x28 on, both are in 8086
-- mode, and each has the mask that was read from it.
remap_pic_lem :
    (a1 a2 : ℕ) (master slave : Controller)
    → (after pic1_command pic1_data (remap_pic a1 a2) master
        ≡ record { awaited = 0; vector = 0x20; wiring = 4; mode = 1; mask = a1 })
      × (after pic2_command pic2_data (remap_pic a1 a2) slave
          ≡ record { awaited = 0; vector = 0x28; wiring = 2; mode = 1; mask = a2 })
unfolding after remap_pic
remap_pic_lem a1 a2 master slave = (refl, refl)
