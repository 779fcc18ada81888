-- ===== src/Kernel/Gates.antt =====
-- What the kernel's set-up leaves in the table and in the controllers.
use mathlib.Core.Path.{subst}
use almorina_os.Prelude.{ℕ, sym, ◌+◌, ◌*◌, ◌<◌, ◌^◌, ◌≡◌, ◌≢◌, ◌∙◌, refl, arith, true, All, [], ◌∷◌}
use almorina_os.Interrupts.{
  IdtDescriptorEntry, IdtRegister, interrupt_gate, idt_set_gate, remap_pic, pic1_command, pic1_data,
  pic2_command, pic2_data,
}
use almorina_os.Interrupts.Gates.{address, address-set_offset, idt_set_gate_lem}
use almorina_os.Interrupts.Wiring.{Controller, after}
use almorina_os.Kernel.{Handlers, prepare_interrupts}

-- An interrupt gate of the kernel's code segment, to `handler`.
abbrev pub IsGate : ℕ → IdtDescriptorEntry → Type 0
IsGate handler d = (address d ≡ handler) × (d.type_attr ≡ interrupt_gate) × (d.selector ≡ 8)

idt_set_gate-IsGate :
    (handler v : ℕ) (idtr : IdtRegister) (cell : ℕ → IdtDescriptorEntry)
    → v < 256
    → idtr.offset + 4096 < 2 ^ 64
    → handler < 2 ^ 64
    → let after = idt_set_gate handler v interrupt_gate 8 idtr cell in
      IsGate handler (after (idtr.offset + v * 16))
      × ((q : ℕ) → q ≢ idtr.offset + v * 16 → after q ≡ cell q)
idt_set_gate-IsGate handler v idtr cell small ends fits =
    let (type_attr, selector, _, low, mid, high, others) =
      idt_set_gate_lem handler v interrupt_gate 8 idtr cell small (omega arith) in
    let whole = address-set_offset handler (cell (idtr.offset + v * 16)) fits in
    ((omega (arith, low, mid, high, whole), type_attr, selector), others)

-- The table ends in the address space, and the handlers' addresses have 64 bits.
abbrev pub Fit : Handlers → ℕ → Type 0
Fit handlers idt =
    (idt + 4096 < 2 ^ 64)
    × (handlers.page_fault_handler < 2 ^ 64)
    × (handlers.zero_devision_handler < 2 ^ 64)
    × (handlers.key_board_handler < 2 ^ 64)
    × (handlers.pit_tick_handler < 2 ^ 64)

-- `prepare_interrupts` leaves gates to the four handlers at the vectors 14, 0, 0x21 and 0x20, and no
-- other entry changed, in a table whose limit is that of 256 entries. The controllers send the lines
-- of the timer and the keyboard, the only ones that are let through, to the vectors 0x20 and 0x21;
-- interrupts are on.
pub prepare_interrupts_lem :
    (handlers : Handlers) (idt a1 a2 : ℕ) (cell : ℕ → IdtDescriptorEntry)
    (master slave : Controller)
    → Fit handlers idt
    → let r = prepare_interrupts handlers idt a1 a2 cell in
      IsGate handlers.page_fault_handler (r.cell (idt + 14 * 16))
      × IsGate handlers.zero_devision_handler (r.cell idt)
      × IsGate handlers.key_board_handler (r.cell (idt + 0x21 * 16))
      × IsGate handlers.pit_tick_handler (r.cell (idt + 0x20 * 16))
      × ((q : ℕ) → All (λ v. q ≢ idt + v * 16) (14 ∷ 0 ∷ 0x21 ∷ 0x20 ∷ []) → r.cell q ≡ cell q)
      × (r.idt_r.limit + 1 ≡ 256 * 16)
      × (after pic1_command pic1_data r.ports master
          ≡ record { awaited = 0; vector = 0x20; wiring = 4; mode = 1; mask = 0xfc })
      × (after pic2_command pic2_data r.ports slave
          ≡ record { awaited = 0; vector = 0x28; wiring = 2; mode = 1; mask = 0xff })
      × (r.interrupts ≡ true)
unfolding prepare_interrupts remap_pic after
prepare_interrupts_lem handlers idt a1 a2 cell master slave
      (ends, fault, zero_devision, key, tick) =
    let idt_r : IdtRegister = record { limit = 0x0fff; offset = idt } in
    let cell1 = idt_set_gate handlers.page_fault_handler 0xe interrupt_gate 0x08 idt_r cell in
    let cell2 = idt_set_gate handlers.zero_devision_handler 0x0 interrupt_gate 0x08 idt_r cell1 in
    let cell3 = idt_set_gate handlers.key_board_handler 0x21 interrupt_gate 0x08 idt_r cell2 in
    let (gate1, others1) =
      idt_set_gate-IsGate handlers.page_fault_handler 14 idt_r cell (omega arith) ends fault in
    let (gate2, others2) =
      idt_set_gate-IsGate handlers.zero_devision_handler 0 idt_r cell1 (omega arith) ends
        zero_devision in
    let (gate3, others3) =
      idt_set_gate-IsGate handlers.key_board_handler 0x21 idt_r cell2 (omega arith) ends key in
    let (gate4, others4) =
      idt_set_gate-IsGate handlers.pit_tick_handler 0x20 idt_r cell3 (omega arith) ends tick in
    let start : idt + 0 * 16 ≡ idt = omega arith in
    (
      subst (IsGate handlers.page_fault_handler)
          (sym (
            others4 (idt + 14 * 16) (omega arith)
            ∙ others3 (idt + 14 * 16) (omega arith)
            ∙ others2 (idt + 14 * 16) (omega arith)))
          gate1,
      subst (IsGate handlers.zero_devision_handler)
          (sym (others4 idt (omega arith) ∙ others3 idt (omega arith))) (rw start at gate2),
      subst (IsGate handlers.key_board_handler) (sym (others4 (idt + 0x21 * 16) (omega arith)))
          gate3,
      gate4,
      (λ q (o1, (o2, (o3, (o4, _)))). others4 q o4 ∙ others3 q o3 ∙ others2 q o2 ∙ others1 q o1),
      refl,
      refl,
      refl,
      refl,
    )
