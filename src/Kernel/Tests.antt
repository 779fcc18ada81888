-- ===== src/Kernel/Tests.antt =====
-- A table at 4096 without gates.
use almorina_os.Prelude.{ℕ, ◌+◌, ◌*◌, ◌≡◌, ◌≢◌, arith, true, All, [], ◌∷◌}
use almorina_os.Interrupts.{IdtDescriptorEntry, pic1_command, pic1_data, pic2_command, pic2_data}
use almorina_os.Interrupts.Wiring.{Controller, after}
use almorina_os.Kernel.{Handlers, prepare_interrupts}
use almorina_os.Kernel.Gates.{IsGate, prepare_interrupts_lem}

abbrev no_gate : IdtDescriptorEntry
no_gate = record {
  offset_low = 0;
  selector = 0;
  ist = 0;
  type_attr = 0;
  offset_mid = 0;
  offset_high = 0;
  zero = 0;
}

abbrev off : Controller
off = record { awaited = 0; vector = 8; wiring = 0; mode = 0; mask = 255 }

abbrev some_handlers : Handlers
some_handlers = record {
  page_fault_handler = 0x101000;
  zero_devision_handler = 0x102000;
  key_board_handler = 0x103000;
  pit_tick_handler = 0x104000;
}

prepare_interrupts_lem_example :
    let r = prepare_interrupts some_handlers 4096 0 0 (λ _. no_gate) in
    IsGate 0x101000 (r.cell 4320)
    × IsGate 0x102000 (r.cell 4096)
    × IsGate 0x103000 (r.cell 4624)
    × IsGate 0x104000 (r.cell 4608)
    × ((q : ℕ) → All (λ v. q ≢ 4096 + v * 16) (14 ∷ 0 ∷ 0x21 ∷ 0x20 ∷ []) → r.cell q ≡ no_gate)
    × (r.idt_r.limit + 1 ≡ 256 * 16)
    × (after pic1_command pic1_data r.ports off
        ≡ record { awaited = 0; vector = 0x20; wiring = 4; mode = 1; mask = 0xfc })
    × (after pic2_command pic2_data r.ports off
        ≡ record { awaited = 0; vector = 0x28; wiring = 2; mode = 1; mask = 0xff })
    × (r.interrupts ≡ true)
prepare_interrupts_lem_example =
    prepare_interrupts_lem some_handlers 4096 0 0 (λ _. no_gate) off off
      (omega arith, omega arith, omega arith, omega arith, omega arith)
