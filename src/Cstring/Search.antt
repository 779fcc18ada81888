-- ===== src/Cstring/Search.antt =====
-- `strlen`, `count`, `strchr` and `strcmp`.
use almorina_os.Prelude.{
  ℕ, zero, suc, ◌+◌, ◌-◌, ◌≤◌, ◌<◌, ◌^◌, ◌≡◌, inl, inr, refl, List, [], ◌∷◌, some, arith, length,
  Bool-cases, ◌==◌, if◌then◌else◌, All,
}
use almorina_os.Prelude.Words.{u32}
use almorina_os.Cstring.{Memory, strlen_loop, strlen, count_loop, count, strchr, strcmp}
use almorina_os.Cstring.Bytes.{IsString}

strlen_loop-length :
    (s : List ℕ) (fuel p n : ℕ) (m : Memory)
    → length s < fuel
    → n + length s < 2 ^ 32
    → IsString m p s
    → strlen_loop fuel p n m ≡ some (n + length s)
unfolding strlen_loop
strlen_loop-length s zero p n m enough small is = absurd (omega arith)
strlen_loop-length [] (suc fuel) p n m enough small is = ground arith
strlen_loop-length (c ∷ s) (suc fuel) p n m enough small is =
    ground (arith, strlen_loop-length s fuel (p + 1) (n + 1) m)

-- With enough fuel `strlen` is the length of a string that an `int` can count.
pub strlen-length :
    (s : List ℕ) (fuel p : ℕ) (m : Memory)
    → length s < fuel
    → length s < 2 ^ 31
    → IsString m p s
    → strlen fuel p m ≡ some (length s)
unfolding strlen
strlen-length s fuel p m enough small is =
    ground (arith, strlen_loop-length s fuel p 0 m enough (omega arith) is)

-- How often `ch` stands in `s`.
abbrev pub occurrences : ℕ → List ℕ → ℕ
occurrences ch [] = 0
occurrences ch (c ∷ s) = let rest = occurrences ch s in if c == ch then suc rest else rest

occurrences-le : (ch : ℕ) (s : List ℕ) → occurrences ch s ≤ length s
occurrences-le ch [] = omega arith
occurrences-le ch (c ∷ s) = ground (arith, occurrences-le ch s)

count_loop-occurrences :
    (s : List ℕ) (fuel p ch n : ℕ) (m : Memory)
    → length s < fuel
    → n + length s < 2 ^ 32
    → IsString m p s
    → count_loop fuel p ch n m ≡ some (n + occurrences ch s)
unfolding count_loop
count_loop-occurrences s zero p ch n m enough small is = absurd (omega arith)
count_loop-occurrences [] (suc fuel) p ch n m enough small is = ground arith
count_loop-occurrences (c ∷ s) (suc fuel) p ch n m enough small is = ground (
  arith,
  occurrences-le ch s,
  count_loop-occurrences s fuel (p + 1) ch n m,
  count_loop-occurrences s fuel (p + 1) ch (n + 1) m,
)

-- With enough fuel `count` is how often `ch` stands in a string that an `int` can count.
count-occurrences :
    (s : List ℕ) (fuel p ch : ℕ) (m : Memory)
    → length s < fuel
    → length s < 2 ^ 31
    → IsString m p s
    → count fuel p ch m ≡ some (occurrences ch s)
unfolding count
count-occurrences s fuel p ch m enough small is =
    ground (arith, count_loop-occurrences s fuel p ch 0 m enough (omega arith) is)

-- Where `needle` first stands in a string at `p`, or 0.
abbrev pub first_at : ℕ → ℕ → List ℕ → ℕ
first_at needle p [] = if needle == 0 then p else 0
first_at needle p (c ∷ s) = let rest = first_at needle (p + 1) s in if c == needle then p else rest

-- With enough fuel `strchr` finds the first `needle`, the NUL at the end included, and is null if
-- there is none.
strchr-first_at :
    (s : List ℕ) (fuel p needle : ℕ) (m : Memory)
    → length s < fuel
    → IsString m p s
    → strchr fuel p needle m ≡ some (first_at needle p s)
unfolding strchr
strchr-first_at s zero p needle m enough is = absurd (omega arith)
strchr-first_at [] (suc fuel) p needle m enough is = ground arith
strchr-first_at (c ∷ s) (suc fuel) p needle m enough is =
    ground (arith, strchr-first_at s fuel (p + 1) needle m)

-- The bytes of a `char` string.
abbrev pub AreBytes : List ℕ → Type 0
AreBytes = All (λ c. c < 256)

-- With enough fuel `strcmp` of two strings of bytes returns, and returns 0 exactly when they are
-- equal.
pub strcmp-eq :
    (s t : List ℕ) (fuel p q : ℕ) (m : Memory)
    → length s < fuel
    → AreBytes s
    → AreBytes t
    → IsString m p s
    → IsString m q t
    → (r : ℕ) × (strcmp fuel p q m ≡ some r) × (r ≡ 0 → s ≡ t) × (s ≡ t → r ≡ 0)
unfolding strcmp
strcmp-eq s t zero p q m enough bs bt is it = absurd (omega arith)
strcmp-eq [] [] (suc fuel) p q m enough bs bt is it = (0, ground arith, λ e. refl, λ e. refl)
strcmp-eq [] (d ∷ t) (suc fuel) p q m enough bs bt is it =
    (2 ^ 32 - d, ground arith, λ e. absurd (omega arith), λ e. cc)
strcmp-eq (c ∷ s) [] (suc fuel) p q m enough bs bt is it =
    (c, ground arith, λ e. absurd (omega arith), λ e. cc)
strcmp-eq (c ∷ s) (d ∷ t) (suc fuel) p q m enough bs bt is it = elim (Bool-cases (c == d)) [
  | inl same ↦
      let (r, run, to, from) =
        strcmp-eq s t fuel (p + 1) (q + 1) m (omega arith) bs.1 bt.1 is.2 it.2 in
      (r, ground (arith, run), λ e. ground (arith, to e), λ e. from (cc))
  | inr differ ↦ (u32 (c + 2 ^ 32 - d), ground arith, λ e. ground arith, λ e. ground arith)
]
