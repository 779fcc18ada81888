-- ===== src/Interrupts/Gates.antt =====
-- The gate that is written.
use almorina_os.Prelude.{ℕ, ◌+◌, ◌*◌, ◌<◌, ◌^◌, ◌≡◌, ◌≢◌, arith}
use almorina_os.Prelude.Words.{u64}
use almorina_os.Prelude.Bits.{bit_and-low, bit_and-mid, bit_and-high}
use almorina_os.Interrupts.{
  IdtDescriptorEntry, IdtRegister, entry_size, interrupt_gate, set_offset, idt_set_gate,
}

-- For a table that ends in the address space, `idt_set_gate` makes its entry an interrupt gate of
-- code segment 8, whatever type and selector it is given, with the handler's address in the fields
-- that `set_offset` writes; the stack table and every other entry stay as they are.
pub idt_set_gate_lem :
    (handler entry type_attr selector : ℕ) (idtr : IdtRegister) (cell : ℕ → IdtDescriptorEntry)
    → entry < 256
    → idtr.offset + 256 * entry_size < 2 ^ 64
    → let p = idtr.offset + entry * entry_size in
      let after = idt_set_gate handler entry type_attr selector idtr cell in
      ((after p).type_attr ≡ interrupt_gate)
      × ((after p).selector ≡ 8)
      × ((after p).ist ≡ (cell p).ist)
      × ((after p).offset_low ≡ (set_offset handler (cell p)).offset_low)
      × ((after p).offset_mid ≡ (set_offset handler (cell p)).offset_mid)
      × ((after p).offset_high ≡ (set_offset handler (cell p)).offset_high)
      × ((q : ℕ) → q ≢ p → after q ≡ cell q)
unfolding idt_set_gate
idt_set_gate_lem handler entry type_attr selector idtr cell small ends =
    let same : u64 (idtr.offset + entry * entry_size) ≡ idtr.offset + entry * entry_size =
      omega arith in
    rw same (
      ground arith,
      ground arith,
      ground arith,
      ground (arith, same),
      ground (arith, same),
      ground (arith, same),
      λ q other. ground arith,
    )

-- The address that the three fields of a gate make up.
abbrev pub address : IdtDescriptorEntry → ℕ
address d = d.offset_low + d.offset_mid * 2 ^ 16 + d.offset_high * 2 ^ 32

-- `set_offset` splits an address of 64 bits so that its fields make up the address again.
pub address-set_offset :
    (offset : ℕ) (d : IdtDescriptorEntry) → offset < 2 ^ 64 → address (set_offset offset d) ≡ offset
unfolding set_offset
address-set_offset offset d small =
    omega (arith, bit_and-low offset, bit_and-mid offset, bit_and-high offset)
