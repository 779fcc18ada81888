-- ===== src/Kernel.antt =====
-- The set-up of the interrupts in src/c-code/kernel.c. `idt` is the address of the table `_idt`, and a
-- handler is the address of its function. `kernel_main` only calls the parts in turn, and has no
-- state of its own.
pub mod Gates
mod Tests
use almorina_os.Prelude.{ℕ, Bool, true, List, [], ◌∷◌, ◌++◌}
use almorina_os.Interrupts.{
  IdtDescriptorEntry, IdtRegister, PortAccess, out_b, interrupt_gate, idt_set_gate, remap_pic,
  pic1_data, pic2_data,
}

-- The functions that handle interrupts.
pub record Handlers : Type 0 where
  pub page_fault_handler : ℕ
  pub zero_devision_handler : ℕ
  pub key_board_handler : ℕ
  pub pit_tick_handler : ℕ

-- The processor's register for the table, the gates, the accesses to the ports, and whether
-- interrupts are on.
pub record Prepared : Type 0 where
  pub idt_r : IdtRegister
  pub cell : ℕ → IdtDescriptorEntry
  pub ports : List PortAccess
  pub interrupts : Bool

-- `a1` and `a2` are what the data ports hold.
unfoldable pub prepare_interrupts : Handlers → ℕ → ℕ → ℕ → (ℕ → IdtDescriptorEntry) → Prepared
prepare_interrupts handlers idt a1 a2 cell =
    let idt_r : IdtRegister = record { limit = 0x0fff; offset = idt } in
    let cell1 = idt_set_gate handlers.page_fault_handler 0xe interrupt_gate 0x08 idt_r cell in
    let cell2 = idt_set_gate handlers.zero_devision_handler 0x0 interrupt_gate 0x08 idt_r cell1 in
    let cell3 = idt_set_gate handlers.key_board_handler 0x21 interrupt_gate 0x08 idt_r cell2 in
    let cell4 = idt_set_gate handlers.pit_tick_handler 0x20 interrupt_gate 0x08 idt_r cell3 in
    record {
      idt_r = idt_r;
      cell = cell4;
      ports = remap_pic a1 a2 ++ out_b pic1_data 0b11111100 ∷ out_b pic2_data 0b11111111 ∷ [];
      interrupts = true;
    }
