-- ===== src/Cstring/Fill.antt =====
-- `memcpy` and `memset`.
use almorina_os.Prelude.{ℕ, zero, suc, ◌+◌, ◌<◌, ◌≡◌, refl, ◌∙◌, arith}
use almorina_os.Prelude.Store.{update}
use almorina_os.Cstring.{Memory, memcpy, memset}
use almorina_os.Cstring.Bytes.{SameOutside, Apart}

memset-frame : (dest val len : ℕ) (m : Memory) → SameOutside dest len m (memset dest val len m)
unfolding memset
memset-frame dest val zero m q out = refl
memset-frame dest val (suc len) m q out =
    memset-frame (dest + 1) val len (update m dest val) q (ground arith) ∙ ground arith

-- `memset` writes `val` to each of the `len` bytes at `dest`, and nothing else.
pub memset_lem :
    (dest val len : ℕ) (m : Memory)
    → ((i : ℕ) → i < len → memset dest val len m (dest + i) ≡ val)
      × SameOutside dest len m (memset dest val len m)
unfolding memset
memset_lem dest val len m = (each len dest m, memset-frame dest val len m)
  where
    each : (len dest : ℕ) (m : Memory) (i : ℕ) → i < len → memset dest val len m (dest + i) ≡ val
    each zero dest m i lt = absurd (omega arith)
    each (suc len) dest m zero lt =
        memset-frame (dest + 1) val len (update m dest val) (dest + 0) (ground arith) ∙ ground arith
    each (suc len) dest m (suc i) lt = ground (arith, each len (dest + 1) (update m dest val) i)

memcpy-frame : (dest src len : ℕ) (m : Memory) → SameOutside dest len m (memcpy dest src len m)
unfolding memcpy
memcpy-frame dest src zero m q out = refl
memcpy-frame dest src (suc len) m q out =
    memcpy-frame (dest + 1) (src + 1) len (update m dest (m src)) q (ground arith) ∙ ground arith

-- Between regions that do not overlap, `memcpy` makes the `len` bytes at `dest` those at `src`, and
-- writes nothing else.
memcpy_lem :
    (dest src len : ℕ) (m : Memory)
    → Apart dest len src len
    → ((i : ℕ) → i < len → memcpy dest src len m (dest + i) ≡ m (src + i))
      × SameOutside dest len m (memcpy dest src len m)
unfolding memcpy
memcpy_lem dest src len m apart = (each len dest src m apart, memcpy-frame dest src len m)
  where
    each :
        (len dest src : ℕ) (m : Memory)
        → Apart dest len src len
        → (i : ℕ) → i < len
        → memcpy dest src len m (dest + i) ≡ m (src + i)
    each zero dest src m apart i lt = absurd (omega arith)
    each (suc len) dest src m apart zero lt =
        memcpy-frame (dest + 1) (src + 1) len (update m dest (m src)) (dest + 0) (ground arith)
        ∙ ground arith
    each (suc len) dest src m apart (suc i) lt =
        ground (arith, each len (dest + 1) (src + 1) (update m dest (m src)) (ground arith) i)
