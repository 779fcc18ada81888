-- ===== src/Fs/Walk/Filename.antt =====
-- The last name of a path.
use almorina_os.Prelude.{
  ℕ, zero, suc, ◌+◌, ◌-◌, ◌<◌, ◌≡◌, ◌≢◌, ◌⊎◌, inl, refl, arith, some, List, [], ◌∷◌, ◌++◌, length,
  length-append, All,
}
use almorina_os.Cstring.{Memory}
use almorina_os.Cstring.Bytes.{IsString, IsString-tail, IsString-end}
use almorina_os.Fs.Walk.{behind_end, skip_slashes, name_start, fs_extract_filename_from_path}

behind_end_lem :
    (s : List ℕ) (fuel p : ℕ) (m : Memory)
    → length s < fuel
    → IsString m p s
    → behind_end fuel p m ≡ some (p + length s + 1)
unfolding behind_end
behind_end_lem s zero p m enough is = absurd (omega arith)
behind_end_lem [] (suc fuel) p m enough is = ground (arith, is)
behind_end_lem (c ∷ s) (suc fuel) p m enough is =
    ground (arith, is, behind_end_lem s fuel (p + 1) m)

-- No byte of a name in memory ends the search for its start.
name_byte :
    (s : List ℕ) (m : Memory) (p j : ℕ)
    → IsString m p s
    → All (λ c. c ≢ b'/') s
    → j < length s
    → (m (p + j) ≢ 0) × (m (p + j) ≢ b'/')
name_byte [] m p j is plain lt = absurd (omega arith)
name_byte (c ∷ s) m p zero is plain lt = ground (arith, is, plain)
name_byte (c ∷ s) m p (suc j) is plain lt =
    let next : p + 1 + j ≡ p + suc j = omega arith in
    rw next at (name_byte s m (p + 1) j is.2 plain.1 (omega arith))

name_start_lem :
    (k fuel a : ℕ) (m : Memory)
    → k < fuel
    → (m a ≡ b'/') ⊎ (m a ≡ 0)
    → ((j : ℕ) → j < k → (m (a + 1 + j) ≢ 0) × (m (a + 1 + j) ≢ b'/'))
    → name_start fuel (a + k) m ≡ some a
unfolding name_start
name_start_lem k zero a m enough stop plain = absurd (omega arith)
name_start_lem zero (suc fuel) a m enough stop plain = ground (arith, stop)
name_start_lem (suc k) (suc fuel) a m enough stop plain =
    let here : a + suc k ≡ a + 1 + k = omega arith in
    let before : a + 1 + k - 1 ≡ a + k = omega arith in
    rw (here, before)
      (ground (
        arith,
        plain k (omega arith),
        name_start_lem k fuel a m (omega arith) stop (λ j lt. plain j (omega arith)),
      ))

skip_slashes-end : (fuel e : ℕ) (m : Memory) → m e ≡ 0 → skip_slashes (suc fuel) (e + 1) m ≡ some e
unfolding skip_slashes
skip_slashes-end fuel e m zero_byte =
    let back : e + 1 - 1 ≡ e = omega arith in rw (back, zero_byte) refl

-- With enough fuel, the name of a path is what stands behind its last '/': its address and its length
-- are returned, and the length is 0 for a path that ends in '/'.
pub fs_extract_filename_from_path_lem :
    (d name : List ℕ) (fuel p : ℕ) (m : Memory)
    → length (d ++ b'/' ∷ name) < fuel
    → All (λ c. c ≢ b'/') name
    → IsString m p (d ++ b'/' ∷ name)
    → fs_extract_filename_from_path fuel p m ≡ some (p + length d + 1, length name)
unfolding fs_extract_filename_from_path
fs_extract_filename_from_path_lem d name zero p m enough plain is = absurd (omega arith)
fs_extract_filename_from_path_lem d name (suc fuel) p m enough plain is =
    let a = p + length d in
    let slash = IsString-tail d (b'/' ∷ name) m p is in
    let long = length-append d (b'/' ∷ name) in
    let end = a + 1 + length name in
    let all : p + length (d ++ b'/' ∷ name) + 1 ≡ end + 1 = omega (arith, long) in
    let last : end - 1 ≡ a + length name = omega arith in
    let count : end - (a + 1) ≡ length name = omega arith in
    rw
      (
        behind_end_lem (d ++ b'/' ∷ name) (suc fuel) p m enough is,
        all,
        skip_slashes-end fuel end m (IsString-end name m (a + 1) slash.2),
        last,
        name_start_lem (length name) (suc fuel) a m (omega (arith, long)) (inl slash.0)
            (λ j lt. name_byte name m (a + 1) j slash.2 plain lt),
        count,
      )
      refl
