-- ===== src/Shell/Combine/Joined.antt =====
-- The string that is made, and what is made of no strings.
use almorina_os.Prelude.{
  ℕ, suc, ◌+◌, ◌-◌, ◌≤◌, ◌<◌, ◌^◌, ◌≡◌, inl, refl, ap, ◌∙◌, arith, some, List, [], ◌∷◌, ◌++◌,
  length, length-append,
}
use almorina_os.Prelude.Words.{u32, add64, sub64}
use almorina_os.Prelude.Store.{update}
use almorina_os.Cstring.{Memory}
use almorina_os.Cstring.Bytes.{BytesAt, BytesAt-same, IsString, IsString-same, SameOutside, Apart}
use almorina_os.Cstring.Text.{strncpy-whole}
use almorina_os.Cstring.Search.{strlen-length}
use almorina_os.Heap.{Heap, malloc}
use almorina_os.Fs.{int_to_u64}
use almorina_os.Shell.Combine.{total_loop, copy_loop, shell_combine_strings}

-- Every string with a space behind it.
abbrev pub spaced : List (List ℕ) → List ℕ
spaced [] = []
spaced (s ∷ ss) = s ++ b' ' ∷ spaced ss

-- The strings with a space between two.
abbrev pub joined : List (List ℕ) → List ℕ
joined [] = []
joined (s ∷ []) = s
joined (s ∷ t ∷ ss) = s ++ b' ' ∷ joined (t ∷ ss)

-- The strings stand at the addresses; each has a byte, is shorter than the fuel and than 2 ^ 16, and
-- stands apart from the `n` bytes at `p`.
abbrev pub Args : Memory → ℕ → ℕ → ℕ → List ℕ → List (List ℕ) → Type 0
Args m fuel p n [] [] = Unit {0}
Args m fuel p n (a ∷ args) (s ∷ ss) =
    (IsString m a s
      × (0 < length s)
      × (length s < fuel)
      × (length s < 2 ^ 16)
      × Apart p n a (length s + 1))
    × Args m fuel p n args ss
Args m fuel p n _ _ = ⊥

Args-same :
    (ss : List (List ℕ)) (args : List ℕ) (m m' : Memory) (fuel p n : ℕ)
    → SameOutside p n m m'
    → Args m fuel p n args ss
    → Args m' fuel p n args ss
Args-same [] [] m m' fuel p n same is = tt
Args-same [] (a ∷ args) m m' fuel p n same is = absurd is
Args-same (s ∷ ss) [] m m' fuel p n same is = absurd is
Args-same (s ∷ ss) (a ∷ args) m m' fuel p n same ((is, some_bytes, enough, small, apart), others) =
    (
      (
        IsString-same s m m' a p n same (ground (arith, apart)) is,
        some_bytes,
        enough,
        small,
        apart,
      ),
      Args-same ss args m m' fuel p n same others,
    )

total_loop_lem :
    (ss : List (List ℕ)) (args : List ℕ) (total fuel p n : ℕ) (m : Memory)
    → Args m fuel p n args ss
    → total + length (spaced ss) < 2 ^ 64
    → total_loop fuel args total m ≡ some (total + length (spaced ss))
unfolding total_loop
total_loop_lem [] [] total fuel p n m is fits = ground arith
total_loop_lem [] (a ∷ args) total fuel p n m is fits = absurd is
total_loop_lem (s ∷ ss) [] total fuel p n m is fits = absurd is
total_loop_lem (s ∷ ss) (a ∷ args) total fuel p n m ((is, some_bytes, enough, small, apart), others)
      fits =
    let long = length-append s (b' ' ∷ spaced ss) in
    let next : add64 total (int_to_u64 (u32 (length s + 1))) ≡ total + length s + 1 =
      ground (arith, long) in
    let sum : total + length s + 1 + length (spaced ss) ≡ total + length (spaced (s ∷ ss)) =
      omega (arith, long) in
    rw (strlen-length s fuel a m enough (omega arith) is, next)
      (rw sum at
        (total_loop_lem ss args (total + length s + 1) fuel p n m others (omega (arith, sum))))

BytesAt-append :
    (s t : List ℕ) (m : Memory) (q : ℕ)
    → BytesAt m q s
    → BytesAt m (q + length s) t
    → BytesAt m q (s ++ t)
BytesAt-append [] t m q first second = let here : q + 0 ≡ q = omega arith in rw here at second
BytesAt-append (c ∷ s) t m q first second =
    let here : q + suc (length s) ≡ q + 1 + length s = omega arith in
    (first.0, BytesAt-append s t m (q + 1) first.1 (rw here at second))

-- From `pos` on, inside the `n` bytes at `p`.
copy_loop_lem :
    (ss : List (List ℕ)) (args : List ℕ) (pos fuel p n : ℕ) (m : Memory)
    → Args m fuel p n args ss
    → pos + length (spaced ss) ≤ n
    → p + n < 2 ^ 64
    → (m' : Memory) × (copy_loop fuel args p pos m ≡ some m')
      × BytesAt m' (p + pos) (spaced ss)
      × SameOutside (p + pos) (length (spaced ss)) m m'
unfolding copy_loop
copy_loop_lem [] [] pos fuel p n m is fits ends = (m, refl, tt, λ q out. refl)
copy_loop_lem [] (a ∷ args) pos fuel p n m is fits ends = absurd is
copy_loop_lem (s ∷ ss) [] pos fuel p n m is fits ends = absurd is
copy_loop_lem ([] ∷ ss) (a ∷ args) pos fuel p n m ((is, some_bytes, enough, small, apart), others)
      fits ends =
    absurd (omega arith)
copy_loop_lem ((c ∷ s) ∷ ss) (a ∷ args) pos fuel p n m
      ((is, some_bytes, enough, small, apart), others) fits ends =
    let len = length (c ∷ s) in
    let long = length-append (c ∷ s) (b' ' ∷ spaced ss) in
    let dest = p + pos in
    let (m1, runs, bytes, same) =
      strncpy-whole c s fuel dest a m enough small (ground (arith, apart, long)) is in
    let m2 = update m1 (dest + len) b' ' in
    let kept : SameOutside dest (len + 1) m m2 =
      λ q out. ground (arith, same q (ground (arith, out)), out) in
    let inside : SameOutside p n m m2 = λ q out. kept q (ground (arith, out, long)) in
    let (m3, rest, bytes', same') =
      copy_loop_lem ss args (pos + len + 1) fuel p n m2
        (Args-same ss args m m2 fuel p n inside others) (omega (arith, long)) ends in
    let size : int_to_u64 len ≡ len = ground (arith, small) in
    let size' : u32 len ≡ len = omega arith in
    let at_pos : add64 p pos ≡ dest = omega (arith, long) in
    let at_space : add64 p (add64 pos len) ≡ dest + len = omega (arith, long) in
    let next : add64 pos (add64 len 1) ≡ pos + len + 1 = omega (arith, long) in
    let next_dest : p + (pos + len + 1) ≡ dest + len + 1 = omega arith in
    let bytes3 : BytesAt m3 dest (c ∷ s) =
      BytesAt-same (c ∷ s) m2 m3 dest (p + (pos + len + 1)) (length (spaced ss)) same'
        (inl (omega arith))
        (BytesAt-same (c ∷ s) m1 m2 dest (dest + len) 1 (λ q out. ground (arith, out))
          (inl (omega arith)) bytes) in
    (
      m3,
      rw
          (
            strlen-length (c ∷ s) fuel a m enough (omega arith) is,
            size,
            size',
            at_pos,
            at_space,
            next,
            runs,
          )
          rest,
      BytesAt-append (c ∷ s) (b' ' ∷ spaced ss) m3 dest bytes3
          (same' (dest + len) (inl (omega arith)) ∙ ground arith, rw next_dest at bytes'),
      λ q out. same' q (ground (arith, out, long)) ∙ kept q (ground (arith, out, long)),
    )

append-joined :
    (s t : List ℕ) (m : Memory) (a : ℕ) (is : IsString m a s) (m' : Memory) (q : ℕ)
    → BytesAt m' q s
    → IsString m' (q + length s) t
    → IsString m' q (s ++ t)
append-joined [] t m a is m' q bytes next = let here : q + 0 ≡ q = omega arith in rw here at next
append-joined (c ∷ s) t m a is m' q bytes next =
    let here : q + suc (length s) ≡ q + 1 + length s = omega arith in
    (bytes.0, is.1, append-joined s t m (a + 1) is.2 m' (q + 1) bytes.1 (rw here at next))

BytesAt-head :
    (s t : List ℕ) (m : Memory) (q : ℕ)
    → BytesAt m q (s ++ t)
    → BytesAt m q s × BytesAt m (q + length s) t
BytesAt-head [] t m q bytes = let here : q ≡ q + 0 = omega arith in (tt, rw here at bytes)
BytesAt-head (c ∷ s) t m q bytes =
    let here : q + 1 + length s ≡ q + suc (length s) = omega arith in
    let (first, second) = BytesAt-head s t m (q + 1) bytes.1 in
    ((bytes.0, first), rw here at second)

-- A NUL in place of the last space makes the string.
spaced-joined :
    (s : List ℕ) (ss : List (List ℕ)) (args : List ℕ) (m m' : Memory) (fuel p n q e : ℕ)
    → Args m fuel p n args (s ∷ ss)
    → BytesAt m' q (spaced (s ∷ ss))
    → e + 1 ≡ q + length (spaced (s ∷ ss))
    → IsString (update m' e 0) q (joined (s ∷ ss))
spaced-joined s ss [] m m' fuel p n q e is bytes end = absurd is
spaced-joined s [] (a ∷ args) m m' fuel p n q e ((is, _, _, _, _), others) bytes end =
    let long = length-append s (b' ' ∷ []) in
    let at_end : e ≡ q + length s = omega (arith, long) in
    let none_left : s ++ [] ≡ s = append_nil s in
    let (first, _) = BytesAt-head s (b' ' ∷ []) m' q bytes in
    rw none_left at (
      append-joined s [] m a is (update m' e 0) q
        (BytesAt-same s m' (update m' e 0) q e 1 (λ x out. ground (arith, out)) (inl (omega arith))
          first)
        (ground (arith, at_end)))
  where
    append_nil : (l : List ℕ) → l ++ [] ≡ l
    append_nil [] = refl
    append_nil (x ∷ l) = ap (λ r. x ∷ r) (append_nil l)
spaced-joined s (t ∷ ss) (a ∷ args) m m' fuel p n q e ((is, _, _, _, _), others) bytes end =
    let long = length-append s (b' ' ∷ spaced (t ∷ ss)) in
    let long' = length-append t (b' ' ∷ spaced ss) in
    let (first, (space, rest)) = BytesAt-head s (b' ' ∷ spaced (t ∷ ss)) m' q bytes in
    append-joined s (b' ' ∷ joined (t ∷ ss)) m a is (update m' e 0) q
      (BytesAt-same s m' (update m' e 0) q e 1 (λ x out. ground (arith, out))
        (inl (omega (arith, long, long'))) first)
      (
        ground (arith, long, long', space),
        omega arith,
        spaced-joined t ss args m m' fuel p n (q + length s + 1) e others rest
            (omega (arith, long)),
      )

-- With enough fuel, and when the heap answers, `shell_combine_strings` of one or more strings of at
-- least one byte each makes the string that has them in order with one space between two, in the
-- memory that it got, and writes nowhere else. The strings stand apart from that memory and are
-- shorter than 2 ^ 16.
pub shell_combine_strings_lem :
    (s : List ℕ) (ss : List (List ℕ)) (args : List ℕ) (fuel p : ℕ) (m : Memory) (h h' : Heap)
    → Args m fuel p (length (spaced (s ∷ ss))) args (s ∷ ss)
    → p + length (spaced (s ∷ ss)) < 2 ^ 64
    → malloc fuel (length (spaced (s ∷ ss))) h ≡ some (p, h')
    → (m' : Memory) × (shell_combine_strings fuel args m h ≡ some (p, m', h'))
      × IsString m' p (joined (s ∷ ss))
      × SameOutside p (length (spaced (s ∷ ss))) m m'
unfolding shell_combine_strings
shell_combine_strings_lem s ss args fuel p m h h' is ends given =
    let n = length (spaced (s ∷ ss)) in
    let long = length-append s (b' ' ∷ spaced ss) in
    let (m1, runs, bytes, same) = copy_loop_lem (s ∷ ss) args 0 fuel p n m is (omega arith) ends in
    let here : p + 0 ≡ p = omega arith in
    let e = p + (n - 1) in
    let sum : 0 + n ≡ n = omega arith in
    let total : sub64 n 1 ≡ n - 1 = omega (arith, long) in
    let asked : add64 (n - 1) 1 ≡ n = omega (arith, long) in
    let at_end : add64 p (n - 1) ≡ e = omega arith in
    (
      update m1 e 0,
      rw
          (
            total_loop_lem (s ∷ ss) args 0 fuel p n m is (omega arith),
            sum,
            total,
            asked,
            given,
            runs,
            at_end,
          )
          refl,
      spaced-joined s ss args m m1 fuel p n p e is (rw here at bytes) (omega (arith, long)),
      λ q out. ground (arith, same q (ground (arith, out)), out, long),
    )

-- Of no strings, as for `ls` without an argument, 0 bytes are asked for, and a NUL is written to the
-- byte in front of them: the string that is returned starts with what stood there before.
shell_combine_strings-none :
    (fuel p : ℕ) (m : Memory) (h h' : Heap)
    → 0 < p
    → p < 2 ^ 64
    → malloc fuel 0 h ≡ some (p, h')
    → (shell_combine_strings fuel [] m h ≡ some (p, update m (p - 1) 0, h'))
      × (update m (p - 1) 0 p ≡ m p)
unfolding shell_combine_strings total_loop copy_loop
shell_combine_strings-none fuel p m h h' some_p small given =
    let asked : add64 (sub64 0 1) 1 ≡ 0 = refl in
    let before : add64 p (sub64 0 1) ≡ p - 1 = omega arith in
    (rw (asked, given, before) refl, ground arith)
