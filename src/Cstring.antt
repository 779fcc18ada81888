-- ===== src/Cstring.antt =====
-- The string library, src/c-code/string.c, over a memory of bytes. A pointer is an address, and a
-- function that writes through one returns the new memory. A `for` loop over `len` recurs on the
-- bytes left; a `while` loop takes fuel, and `none` means that it ran out. An `int` is its 32-bit
-- pattern; a `char` is its byte, and `char_to_int` is the promotion of a signed `char`.
-- Cstring.Atof is `atof`, with the arithmetic of `double` as an argument.
pub mod Bytes
pub mod Fill
pub mod Copy
pub mod Text
pub mod Search
pub mod Same
pub mod Number
pub mod Atof
mod Tests
use almorina_os.Prelude.{
  ℕ, zero, suc, ◌+◌, ◌-◌, ◌*◌, ◌%◌, ◌^◌, Bool, true, false, ◌&&◌, not, Option, none, some, ltb,
  ◌==◌, if◌then◌else◌,
}
use almorina_os.Prelude.Words.{u32}
use almorina_os.Prelude.Store.{update}

abbrev pub Memory : Type 0
Memory = ℕ → ℕ

abbrev pub char_to_int : ℕ → ℕ
char_to_int c = if ltb c 128 then c else c + 2 ^ 32 - 256

pub memcpy : ℕ → ℕ → ℕ → Memory → Memory
memcpy dest src zero m = m
memcpy dest src (suc len) m = memcpy (dest + 1) (src + 1) len (update m dest (m src))

unfoldable pub memset : ℕ → ℕ → ℕ → Memory → Memory
memset dest val zero m = m
memset dest val (suc len) m = memset (dest + 1) val len (update m dest val)

pub strcpy : ℕ → ℕ → ℕ → Memory → Option Memory
strcpy zero dest src m = none
strcpy (suc fuel) dest src m =
    let c = m src in
    let m' = update m dest c in
    let rest = strcpy fuel (dest + 1) (src + 1) m' in if c == 0 then some m' else rest

-- A `do` loop: one byte is copied before `size` and the next byte are looked at.
pub strncpy : ℕ → ℕ → ℕ → ℕ → Memory → Option Memory
strncpy zero dest src size m = none
strncpy (suc fuel) dest src size m =
    let size' = u32 (size + 2 ^ 32 - 1) in
    let m' = update m dest (m src) in
    let rest = strncpy fuel (dest + 1) (src + 1) size' m' in
    if not (m' (src + 1) == 0) && not (size' == 0) then rest else some m'

-- The address of the first `needle`, or 0.
pub strchr : ℕ → ℕ → ℕ → Memory → Option ℕ
strchr zero p needle m = none
strchr (suc fuel) p needle m =
    let rest = strchr fuel (p + 1) needle m in
    if m p == needle then some p else if m p == 0 then some 0 else rest

pub strcmp : ℕ → ℕ → ℕ → Memory → Option ℕ
strcmp zero str1 str2 m = none
strcmp (suc fuel) str1 str2 m =
    let differ = u32 (m str1 + 2 ^ 32 - m str2) in
    let rest = strcmp fuel (str1 + 1) (str2 + 1) m in
    if m str1 == 0 then some differ else if m str1 == m str2 then rest else some differ

atoi_loop : ℕ → ℕ → ℕ → Memory → Option ℕ
atoi_loop zero str n m = none
atoi_loop (suc fuel) str n m =
    let rest = atoi_loop fuel (str + 1) (u32 (n * 10 + char_to_int (m str) + 2 ^ 32 - b'0')) m in
    if m str == 0 then some n else rest

pub atoi : ℕ → ℕ → Memory → Option ℕ
unfolding atoi_loop
atoi fuel str m = atoi_loop fuel str 0 m

strlen_loop : ℕ → ℕ → ℕ → Memory → Option ℕ
strlen_loop zero str n m = none
strlen_loop (suc fuel) str n m =
    let rest = strlen_loop fuel (str + 1) (u32 (n + 1)) m in if m str == 0 then some n else rest

pub strlen : ℕ → ℕ → Memory → Option ℕ
unfolding strlen_loop
strlen fuel str m = strlen_loop fuel str 0 m

count_loop : ℕ → ℕ → ℕ → ℕ → Memory → Option ℕ
count_loop zero str ch n m = none
count_loop (suc fuel) str ch n m =
    let rest = count_loop fuel (str + 1) ch (if m str == ch then u32 (n + 1) else n) m in
    if m str == 0 then some n else rest

pub count : ℕ → ℕ → ℕ → Memory → Option ℕ
unfolding count_loop
count fuel str ch m = count_loop fuel str ch 0 m
