-- ===== src/Interrupts.antt =====
-- What the kernel tells the interrupt hardware: the gates of src/c-code/idt.c, the set-up of the
-- interrupt controllers in src/c-code/interrupts.c, and the divisor of src/c-code/pit.c. The gates
-- stand in a store by address; the accesses to the ports, and the waits between them, are a list in
-- order. `get_offset` shifts an `int` by 32, which C leaves undefined, and is left out.
pub mod Gates
pub mod Wiring
pub mod Timer
pub mod Frequency
pub mod Handlers
pub mod Ticks
mod Tests
use Prim.Native.Nat.{bit_and, bit_or}
use almorina_os.Prelude.{ℕ, ◌+◌, ◌*◌, ◌/◌, ◌^◌, List, [], ◌∷◌, ltb, if◌then◌else◌}
use almorina_os.Prelude.Words.{u8, u16, u32, u64}
use almorina_os.Prelude.Store.{update}

-- `idt_descriptor_entry`
pub record IdtDescriptorEntry : Type 0 where
  pub offset_low : ℕ
  pub selector : ℕ
  pub ist : ℕ
  pub type_attr : ℕ
  pub offset_mid : ℕ
  pub offset_high : ℕ
  pub zero : ℕ

-- sizeof(idt_descriptor_entry): 8 bytes of small fields and two words of 4.
abbrev pub entry_size : ℕ
entry_size = 16

-- `idt_register`
pub record IdtRegister : Type 0 where
  pub limit : ℕ
  pub offset : ℕ

-- IDT_TA_InterruptGate
abbrev pub interrupt_gate : ℕ
interrupt_gate = 0b10001110

unfoldable pub set_offset : ℕ → IdtDescriptorEntry → IdtDescriptorEntry
set_offset offset d = record d {
  offset_low = u16 (bit_and offset 0xffff);
  offset_mid = u16 (bit_and offset 0xffff0000 / 2 ^ 16);
  offset_high = u32 (bit_and offset 0xffffffff00000000 / 2 ^ 32);
}

-- The arguments `type_attr` and `selector` are not used.
unfoldable pub idt_set_gate :
    ℕ → ℕ → ℕ → ℕ → IdtRegister → (ℕ → IdtDescriptorEntry) → ℕ → IdtDescriptorEntry
unfolding set_offset
idt_set_gate handler entry_offset type_attr selector idtr cell =
    let p = u64 (idtr.offset + entry_offset * entry_size) in
    let d = set_offset handler (cell p) in
    update cell p (record d { type_attr = interrupt_gate; selector = 0x08 })

-- What happens at the ports: a byte is written, or read, or a write to an unused port waits.
pub data PortAccess : Type 0 where
  out_b : ℕ → ℕ → PortAccess
  in_b : ℕ → PortAccess
  io_wait : PortAccess

abbrev pub pic1_command : ℕ
pic1_command = 0x20

abbrev pub pic1_data : ℕ
pic1_data = 0x21

abbrev pub pic2_command : ℕ
pic2_command = 0xa0

abbrev pub pic2_data : ℕ
pic2_data = 0xa1

abbrev pub pic_eoi : ℕ
pic_eoi = 0x20

-- ICW1_INIT | ICW1_ICW4
abbrev pub icw1 : ℕ
icw1 = bit_or 0x10 0x01

abbrev pub icw4_8086 : ℕ
icw4_8086 = 0x01

-- `a1` and `a2` are what the data ports hold.
unfoldable pub remap_pic : ℕ → ℕ → List PortAccess
remap_pic a1 a2 =
    in_b pic1_data
    ∷ io_wait
    ∷ in_b pic2_data
    ∷ io_wait
    ∷ out_b pic1_command icw1
    ∷ io_wait
    ∷ out_b pic2_command icw1
    ∷ io_wait
    ∷ out_b pic1_data 0x20
    ∷ io_wait
    ∷ out_b pic2_data 0x28
    ∷ io_wait
    ∷ out_b pic1_data 4
    ∷ io_wait
    ∷ out_b pic2_data 2
    ∷ io_wait
    ∷ out_b pic1_data icw4_8086
    ∷ io_wait
    ∷ out_b pic2_data icw4_8086
    ∷ io_wait
    ∷ out_b pic1_data a1
    ∷ io_wait
    ∷ out_b pic2_data a2
    ∷ io_wait
    ∷ []

unfoldable pub pic_end_master : List PortAccess
pic_end_master = out_b pic1_command pic_eoi ∷ []

unfoldable pub pic_end_slave : List PortAccess
pic_end_slave = out_b pic2_command pic_eoi ∷ out_b pic1_command pic_eoi ∷ []

abbrev pub base_frequency : ℕ
base_frequency = 1193182

-- `PIT_set_divisor` with its `uint16_t` argument: `PIT_divisor`, and the writes.
unfoldable pub pit_set_divisor : ℕ → ℕ × List PortAccess
pit_set_divisor divisor =
    let d = if ltb divisor 100 then 100 else divisor in
    (
      d,
      out_b 0x40 (u8 (bit_and d 0x00ff))
          ∷ io_wait
          ∷ out_b 0x40 (u8 (bit_and d 0xff00 / 2 ^ 8))
          ∷ [],
    )

-- `PIT_get_frequency` at a divisor.
unfoldable pub pit_get_frequency : ℕ → ℕ
pit_get_frequency divisor = base_frequency / divisor

-- The quotient becomes a `uint16_t`. The frequency is not 0.
unfoldable pub pit_set_frequency : ℕ → ℕ × List PortAccess
unfolding pit_set_divisor
pit_set_frequency frequency = pit_set_divisor (u16 (base_frequency / frequency))
