-- ===== src/Bitset.antt =====
-- The bit set macros, src/include/bitset.h, over a memory of bytes. An index is not negative.
pub mod Laws
mod Tests
use Prim.Native.Nat.{bit_and, bit_or}
use almorina_os.Prelude.{ℕ, ◌+◌, ◌*◌, ◌/◌, ◌%◌, ◌^◌, ◌==◌, if◌then◌else◌}
use almorina_os.Prelude.Words.{u8, u32}
use almorina_os.Prelude.Store.{update}
use almorina_os.Cstring.{Memory}

-- BITSET_SIZE
abbrev pub bitset_size : ℕ → ℕ
bitset_size size = size / 8 + 1

-- NUM_BIT
abbrev pub num_bit : ℕ → ℕ → ℕ
num_bit n k = bit_and n (2 ^ k) / 2 ^ k

-- BITSET_READBIT
unfoldable pub bitset_readbit : ℕ → ℕ → Memory → ℕ
bitset_readbit bitset index m = num_bit (m (bitset + index / 8)) (index % 8)

-- SET_BIT, as stored in a `uint8_t`.
abbrev pub set_bit : ℕ → ℕ → ℕ
set_bit p n = u8 (bit_or p (2 ^ n))

-- CLR_BIT: `~(1) << n` shifts the complement of 1, and not 1.
abbrev pub clr_bit : ℕ → ℕ → ℕ
clr_bit p n = u8 (bit_and p (u32 (0xffff_fffe * 2 ^ n)))

-- BITSET_SETBIT
unfoldable pub bitset_setbit : ℕ → ℕ → ℕ → Memory → Memory
bitset_setbit bitset index val m =
    let p = bitset + index / 8 in
    update m p (if val == 0 then clr_bit (m p) (index % 8) else set_bit (m p) (index % 8))
