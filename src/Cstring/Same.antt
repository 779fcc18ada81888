-- ===== src/Cstring/Same.antt =====
-- Whether two texts are the same, which `strcmp` tells.
use almorina_os.Prelude.{
  ℕ, ◌<◌, ◌≡◌, ◌≢◌, inl, inr, refl, ap, arith, Bool, true, false, ◌&&◌, some, List, [], ◌∷◌, length,
  Bool-cases, ◌==◌,
}
use almorina_os.Cstring.{Memory, strcmp}
use almorina_os.Cstring.Bytes.{IsString}
use almorina_os.Cstring.Search.{AreBytes, strcmp-eq}

abbrev pub same : List ℕ → List ℕ → Bool
same [] [] = true
same (a ∷ s) (b ∷ t) = a == b && same s t
same [] (b ∷ t) = false
same (a ∷ s) [] = false

same→eq : (s t : List ℕ) → same s t ≡ true → s ≡ t
same→eq [] [] h = refl
same→eq (a ∷ s) (b ∷ t) h = ground (arith, same→eq s t)
same→eq [] (b ∷ t) h = cc
same→eq (a ∷ s) [] h = cc

pub same_refl : (s : List ℕ) → same s s ≡ true
same_refl [] = refl
same_refl (a ∷ s) = ground (arith, same_refl s)

-- `strcmp` returns 0 exactly for the same name.
pub strcmp-same :
    (n s : List ℕ) (fuel p q : ℕ) (m : Memory)
    → length n < fuel
    → AreBytes n
    → AreBytes s
    → IsString m p n
    → IsString m q s
    → (r : ℕ) × (strcmp fuel p q m ≡ some r) × ((r == 0) ≡ same n s)
strcmp-same n s fuel p q m enough bytes bytes' is is' =
    let (r, runs, equal, zero_if) = strcmp-eq n s fuel p q m enough bytes bytes' is is' in
    (
      r,
      runs,
      elim (Bool-cases (same n s)) [
        | inl eq ↦ ground (arith, zero_if (same→eq n s eq), eq)
        | inr ne ↦
            let differ : r ≢ 0 = λ z.
              let e : same n n ≡ same n s = ap (same n) (equal z) in
              ground (arith, e, same_refl n, ne) in
            ground (arith, differ, ne)
      ],
    )
