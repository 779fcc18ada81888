-- ===== src/Bitset/Laws.antt =====
-- What reading a bit gives after a bit was set or cleared.
use native.Mathlib.Decide.{ℕ_discrete}
use almorina_os.Prelude.{
  ℕ, ◌+◌, ◌*◌, ◌/◌, ◌%◌, ◌<◌, ◌≡◌, ◌≢◌, refl, arith, true, false, ◌&&◌, ◌==◌, leb, ==→eq,
  if◌then◌else◌,
}
use almorina_os.Prelude.Table.{all_below, all_pairs_sound}
use almorina_os.Cstring.{Memory}
use almorina_os.Bitset.{num_bit, set_bit, clr_bit, bitset_readbit, bitset_setbit}

-- A bit of a byte after another was set or cleared, for every byte and every two bits.
set_table :
    all_below 256 (λ p. all_below 64 λ nk.
      num_bit (set_bit p (nk / 8)) (nk % 8) == (if nk / 8 == nk % 8 then 1 else num_bit p (nk % 8)))
    ≡ true
unfolding all_below
set_table = refl

clr_table :
    all_below 256 (λ p. all_below 64 λ nk.
      num_bit (clr_bit p (nk / 8)) (nk % 8)
      == (if leb (nk % 8) (nk / 8) then 0 else num_bit p (nk % 8)))
    ≡ true
unfolding all_below
clr_table = refl

num_bit-set_bit :
    (p n k : ℕ)
    → p < 256
    → n < 8
    → k < 8
    → num_bit (set_bit p n) k ≡ (if n == k then 1 else num_bit p k)
num_bit-set_bit p n k hp hn hk =
    let high : (n * 8 + k) / 8 ≡ n = omega arith in
    let low : (n * 8 + k) % 8 ≡ k = omega arith in
    rw (high, low) at
      (==→eq _ _ (all_pairs_sound 256 64 _ p (n * 8 + k) set_table hp (omega arith)))

num_bit-clr_bit :
    (p n k : ℕ)
    → p < 256
    → n < 8
    → k < 8
    → num_bit (clr_bit p n) k ≡ (if leb k n then 0 else num_bit p k)
num_bit-clr_bit p n k hp hn hk =
    let high : (n * 8 + k) / 8 ≡ n = omega arith in
    let low : (n * 8 + k) % 8 ≡ k = omega arith in
    rw (high, low) at
      (==→eq _ _ (all_pairs_sound 256 64 _ p (n * 8 + k) clr_table hp (omega arith)))

-- Every byte of the set that holds `index` is a byte.
abbrev pub IsByteAt : ℕ → ℕ → Memory → Type 0
IsByteAt bitset index m = m (bitset + index / 8) < 256

-- After a bit was set to a value other than 0 it reads as 1, and every other bit of the set reads
-- as before.
pub bitset_readbit-setbit :
    (bitset i j val : ℕ) (m : Memory)
    → val ≢ 0
    → IsByteAt bitset i m
    → bitset_readbit bitset j (bitset_setbit bitset i val m)
      ≡ (if i == j then 1 else bitset_readbit bitset j m)
unfolding bitset_readbit bitset_setbit
bitset_readbit-setbit bitset i j val m nonzero byte =
    let set : (val == 0) ≡ false = ground arith in
    let law =
      num_bit-set_bit (m (bitset + i / 8)) (i % 8) (j % 8) byte (omega arith) (omega arith) in
    elim (ℕ_discrete (j / 8) (i / 8)) [
      | yes same ↦
          let here : (bitset + j / 8 == bitset + i / 8) ≡ true = ground arith in
          let bits : (i == j) ≡ (i % 8 == j % 8) = ground arith in rw (set, here, bits, same) law
      | no other ↦
          let away : (bitset + j / 8 == bitset + i / 8) ≡ false = ground arith in
          let differ : (i == j) ≡ false = ground arith in rw (set, away, differ)
    ]

-- After a bit was cleared it reads as 0, and so does every lower bit of the same byte; every other
-- bit of the set reads as before.
bitset_readbit-clearbit :
    (bitset i j : ℕ) (m : Memory)
    → IsByteAt bitset i m
    → bitset_readbit bitset j (bitset_setbit bitset i 0 m)
      ≡ (if i / 8 == j / 8 && leb (j % 8) (i % 8) then 0 else bitset_readbit bitset j m)
unfolding bitset_readbit bitset_setbit
bitset_readbit-clearbit bitset i j m byte =
    let law =
      num_bit-clr_bit (m (bitset + i / 8)) (i % 8) (j % 8) byte (omega arith) (omega arith) in
    elim (ℕ_discrete (j / 8) (i / 8)) [
      | yes same ↦
          let here : (bitset + j / 8 == bitset + i / 8) ≡ true = ground arith in
          let byte_same : (i / 8 == j / 8) ≡ true = ground arith in rw (here, byte_same, same) law
      | no other ↦
          let away : (bitset + j / 8 == bitset + i / 8) ≡ false = ground arith in
          let differ : (i / 8 == j / 8) ≡ false = ground arith in rw (away, differ)
    ]
