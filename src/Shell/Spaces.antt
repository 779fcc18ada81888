-- ===== src/Shell/Spaces.antt =====
-- Spaces are taken out of a string in place.
use almorina_os.Prelude.{
  ℕ, zero, suc, ◌+◌, ◌≤◌, ◌<◌, ◌≡◌, ◌⊎◌, inl, inr, false, some, List, [], ◌∷◌, refl, ◌∙◌, arith,
  length, ◌==◌, ==→eq, Bool-cases, if◌then◌else◌,
}
use almorina_os.Prelude.Store.{update}
use almorina_os.Cstring.{Memory}
use almorina_os.Cstring.Bytes.{IsString, IsString-update, SameOutside}
use almorina_os.Shell.{skip_spaces, strip_loop, strip_spaces}

abbrev pub without_spaces : List ℕ → List ℕ
without_spaces [] = []
without_spaces (c ∷ s) = let rest = without_spaces s in if c == b' ' then rest else c ∷ rest

-- The address behind the spaces that a text at `d` starts with.
abbrev behind : ℕ → List ℕ → ℕ
behind d [] = d
behind d (c ∷ s) = let rest = behind (d + 1) s in if c == b' ' then rest else d

skip_spaces-behind :
    (s : List ℕ) (fuel d : ℕ) (m : Memory)
    → length s < fuel
    → IsString m d s
    → skip_spaces fuel d m ≡ some (behind d s)
unfolding skip_spaces
skip_spaces-behind s zero d m enough is = absurd (omega arith)
skip_spaces-behind [] (suc fuel) d m enough is = ground (arith, is)
skip_spaces-behind (c ∷ s) (suc fuel) d m enough is =
    ground (arith, is, skip_spaces-behind s fuel (d + 1) m)

strip_loop-space :
    (t : List ℕ) (limit fuel s d : ℕ) (m : Memory)
    → length t + 1 < limit
    → IsString m d (b' ' ∷ t)
    → strip_loop limit (suc fuel) s d m ≡ strip_loop limit (suc fuel) s (d + 1) m
unfolding strip_loop
strip_loop-space t limit fuel s d m room is =
    rw
      (
        skip_spaces-behind (b' ' ∷ t) limit d m (omega arith) is,
        skip_spaces-behind t limit (d + 1) m (omega arith) is.2,
      )
      refl

strip_loop-other :
    (c : ℕ) (t : List ℕ) (limit fuel s d : ℕ) (m : Memory)
    → length t + 1 < limit
    → (c == b' ') ≡ false
    → IsString m d (c ∷ t)
    → strip_loop limit (suc fuel) s d m ≡ strip_loop limit fuel (s + 1) (d + 1) (update m s c)
unfolding strip_loop
strip_loop-other c t limit fuel s d m room other is =
    rw (skip_spaces-behind (c ∷ t) limit d m (omega arith) is, other, is.0)
      (let more : (c == 0) ≡ false = ground (arith, is.1) in rw more refl)

strip_loop_lem :
    (t : List ℕ) (limit fuel s d : ℕ) (m : Memory)
    → length t < limit
    → length t < fuel
    → s ≤ d
    → IsString m d t
    → (m' : Memory) × (strip_loop limit fuel s d m ≡ some m')
      × IsString m' s (without_spaces t)
      × ((q : ℕ) → (q < s) ⊎ (d + length t + 1 ≤ q) → m' q ≡ m q)
unfolding strip_loop
strip_loop_lem t limit zero s d m room enough before is = absurd (omega arith)
strip_loop_lem [] limit (suc fuel) s d m room enough before is = (
  update m s 0,
  rw (skip_spaces-behind [] limit d m room is, is) refl,
  ground arith,
  λ q out. ground arith,
)
strip_loop_lem (c ∷ t) limit (suc fuel) s d m room enough before is =
    elim (Bool-cases (c == b' ')) [
      | inl space ↦
          let (m', runs, text, same) =
            strip_loop_lem t limit (suc fuel) s (d + 1) m (omega arith) (omega arith) (omega arith)
              is.2 in
          let blank : c ≡ b' ' = ==→eq _ _ space in
          (
            m',
            strip_loop-space t limit fuel s d m (omega arith) (rw⁻¹ blank is) ∙ runs,
            rw space text,
            λ q out. same q (ground arith),
          )
      | inr other ↦
          let (m', runs, text, same) =
            strip_loop_lem t limit fuel (s + 1) (d + 1) (update m s c) (omega arith) (omega arith)
              (omega arith) (IsString-update t m (d + 1) s c (inl (omega arith)) is.2) in
          (
            m',
            strip_loop-other c t limit fuel s d m (omega arith) other is ∙ runs,
            rw other (ground (arith, same s), is.1, text),
            λ q out. ground (arith, same q),
          )
    ]

-- With enough fuel `strip_spaces` leaves, where the string stood, its characters that are no
-- spaces, in order and with a NUL behind them, and writes nothing outside the string.
pub strip_spaces_lem :
    (t : List ℕ) (fuel s : ℕ) (m : Memory)
    → length t < fuel
    → IsString m s t
    → (m' : Memory) × (strip_spaces fuel s m ≡ some m')
      × IsString m' s (without_spaces t)
      × SameOutside s (length t + 1) m m'
unfolding strip_spaces
strip_spaces_lem t fuel s m enough is =
    let (m', runs, text, same) = strip_loop_lem t fuel fuel s s m enough enough (omega arith) is in
    (m', runs, text, λ q out. same q (ground arith))
