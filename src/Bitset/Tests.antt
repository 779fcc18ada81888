-- ===== src/Bitset/Tests.antt =====
-- Bits of a byte with the value 6.
use almorina_os.Cstring.{Memory}

abbrev sixes : Memory
sixes _ = 6

-- Bit 1 goes with bit 2.
