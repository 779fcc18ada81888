-- ===== src/Shell/Variables/Copies.antt =====
-- The copies that a variable's name and data are.
use almorina_os.Prelude.{
  ℕ, ◌+◌, ◌-◌, ◌≤◌, ◌<◌, ◌^◌, ◌≡◌, ◌⊎◌, inl, refl, ◌∙◌, arith, false, ◌&&◌, some, List, length,
}
use almorina_os.Prelude.Words.{u32}
use almorina_os.Prelude.Store.{update}
use almorina_os.Cstring.{Memory}
use almorina_os.Cstring.Bytes.{IsString, IsString-same, SameOutside, Apart}
use almorina_os.Cstring.Copy.{strcpy_lem}
use almorina_os.Cstring.Search.{strlen-length}
use almorina_os.Heap.{Heap, malloc}
use almorina_os.Fs.{int_to_u64}
use almorina_os.Shell.Expression.{only_exp, has_digit, is_exp_lem}
use almorina_os.Shell.Variables.{Number, string, clear_low, copy_string, set_name, set_data}

copy_string_lem :
    (s : List ℕ) (fuel text p : ℕ) (m : Memory) (h h' : Heap)
    → length s < fuel
    → length s + 1 < 2 ^ 31
    → IsString m text s
    → Apart p (length s + 1) text (length s + 1)
    → malloc fuel (length s + 1) h ≡ some (p, h')
    → (m' : Memory) × (copy_string fuel text m h ≡ some (p, length s + 1, m', h'))
      × IsString m' p s
      × SameOutside p (length s + 1) m m'
unfolding copy_string
copy_string_lem s fuel text p m h h' enough small is apart given =
    let (m', runs, copied, same) = strcpy_lem s fuel p text m enough apart is in
    let len : u32 (length s + 1) ≡ length s + 1 = omega arith in
    let size : int_to_u64 (length s + 1) ≡ length s + 1 = ground (arith, small) in
    (
      m',
      rw (strlen-length s fuel text m enough (omega arith) is, len, size, given, runs) refl,
      copied,
      same,
    )

-- A NUL behind the bytes of a copy.
after_copy :
    (p n : ℕ) (m m' : Memory) (e : ℕ)
    → p ≤ e
    → e ≤ p + n
    → SameOutside p n m m'
    → SameOutside p (n + 1) m (update m' e 0)
after_copy p n m m' e lo hi same q out = ground (arith, same q (ground (arith, out)), out)

-- The name's second copy stands at `q`, and the byte behind its memory is written.
pub set_name_lem :
    (s : List ℕ) (fuel text p q : ℕ) (m : Memory) (h h1 h2 : Heap)
    → length s < fuel
    → length s + 1 < 2 ^ 31
    → IsString m text s
    → Apart p (length s + 2) text (length s + 1)
    → Apart q (length s + 2) text (length s + 1)
    → malloc fuel (length s + 1) h ≡ some (p, h1)
    → malloc fuel (length s + 1) h1 ≡ some (q, h2)
    → (m' : Memory) × (set_name fuel text m h ≡ some (q, m', clear_low (q + (length s + 1)) h2))
      × IsString m' q s
      × ((x : ℕ) → (x < p) ⊎ (p + length s + 2 ≤ x) → (x < q) ⊎ (q + length s + 2 ≤ x) → m' x ≡ m x)
unfolding set_name
set_name_lem s fuel text p q m h h1 h2 enough small is apart_p apart_q first second =
    let n = length s in
    let (m1, runs1, _, same1) =
      copy_string_lem s fuel text p m h h1 enough small is (ground (arith, apart_p)) first in
    let m1' = update m1 (p + (n + 1) - 1) 0 in
    let kept1 : SameOutside p (n + 1 + 1) m m1' =
      after_copy p (n + 1) m m1 (p + (n + 1) - 1) (omega arith) (omega arith) same1 in
    let is1 = IsString-same s m m1' text p (n + 1 + 1) kept1 (ground (arith, apart_p)) is in
    let (m2, runs2, copied, same2) =
      copy_string_lem s fuel text q m1' h1 h2 enough small is1 (ground (arith, apart_q)) second in
    let m2' = update m2 (q + (n + 1)) 0 in
    let kept2 : SameOutside q (n + 1 + 1) m1' m2' =
      after_copy q (n + 1) m1' m2 (q + (n + 1)) (omega arith) (omega arith) same2 in
    (
      m2',
      rw (runs1, runs2) refl,
      IsString-same s m2 m2' q (q + (n + 1)) 1 (λ x out. ground (arith, out)) (inl (omega arith))
          copied,
      λ x out_p out_q. kept2 x (ground (arith, out_q)) ∙ kept1 x (ground (arith, out_p)),
    )

-- Data that are no expression are copied, and the byte behind their memory is written.
pub set_data-string :
    (eval : ℕ → Memory → Number) (s : List ℕ) (fuel text p : ℕ) (m : Memory) (h h' : Heap)
    → length s < fuel
    → length s + 1 < 2 ^ 31
    → IsString m text s
    → (only_exp s && has_digit s) ≡ false
    → Apart p (length s + 2) text (length s + 1)
    → malloc fuel (length s + 1) h ≡ some (p, h')
    → (m' : Memory) × (set_data eval fuel text m h
        ≡ some (p, string, m', clear_low (p + (length s + 1)) h'))
      × IsString m' p s
      × SameOutside p (length s + 2) m m'
unfolding set_data
set_data-string eval s fuel text p m h h' enough small is no_exp apart given =
    let n = length s in
    let (m1, runs, copied, same) =
      copy_string_lem s fuel text p m h h' enough small is (ground (arith, apart)) given in
    let m2 = update m1 (p + (n + 1)) 0 in
    let kept : SameOutside p (n + 1 + 1) m m2 =
      after_copy p (n + 1) m m1 (p + (n + 1)) (omega arith) (omega arith) same in
    (
      m2,
      rw (is_exp_lem s fuel text m enough is, no_exp, runs) refl,
      IsString-same s m1 m2 p (p + (n + 1)) 1 (λ x out. ground (arith, out)) (inl (omega arith))
          copied,
      λ x out. kept x (ground (arith, out)),
    )
