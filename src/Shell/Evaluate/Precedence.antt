-- ===== src/Shell/Evaluate/Precedence.antt =====
-- The order in which the operators of an expression are computed.
use almorina_os.Prelude.{
  ℕ, zero, suc, ◌+◌, ◌<◌, ◌≡◌, ◌⊎◌, inl, inr, refl, ◌∙◌, arith, Bool-cases, true, false, Option,
  none, some, [], ◌∷◌, length, map, All, ◌==◌, if◌then◌else◌,
}
use almorina_os.Prelude.Fault.{◌>>=◌}
use almorina_os.Shell.Evaluate.{
  Floats, Tail, is_sum, is_product, pick_loop, pick_index, compute, merge_at, reduce,
}

-- Every operator is one of the four.
abbrev pub HasOperators : Tail → Type 0
HasOperators = All (λ o. (is_sum o.0 ≡ true) ⊎ (is_product o.0 ≡ true))

-- One of the four operators.
abbrev pub IsOperator : ℕ → Type 0
IsOperator op = (op ≡ b'+') ⊎ (op ≡ b'-') ⊎ (op ≡ b'*') ⊎ (op ≡ b'/')

pub sum_or_product_of : (op : ℕ) → IsOperator op → (is_sum op ≡ true) ⊎ (is_product op ≡ true)
sum_or_product_of op (inl plus) = inl (ground (arith, plus))
sum_or_product_of op (inr (inl minus)) = inl (ground (arith, minus))
sum_or_product_of op (inr (inr (inl times))) = inr (ground (arith, times))
sum_or_product_of op (inr (inr (inr over))) = inr (ground (arith, over))

-- The operator at the index is a product, and those before it are none.
abbrev IsFirstProduct : ℕ → Tail → Type 0
IsFirstProduct index [] = ⊥
IsFirstProduct zero ((op, b) ∷ rest) = is_product op ≡ true
IsFirstProduct (suc index) ((op, b) ∷ rest) = (is_product op ≡ false) × IsFirstProduct index rest

abbrev NoProduct : Tail → Type 0
NoProduct = All (λ o. is_product o.0 ≡ false)

product_or_sum : (op : ℕ) → is_product op ≡ true → is_sum op ≡ false
product_or_sum op product = ground (arith, product)

sum_or_product : (op : ℕ) → is_sum op ≡ true → is_product op ≡ false
sum_or_product op sum = ground (arith, sum)

no_times : (op : ℕ) → is_product op ≡ false → (op == b'*') ≡ false
no_times op other = ground (arith, other)

no_over : (op : ℕ) → is_product op ≡ false → (op == b'/') ≡ false
no_over op other = ground (arith, other)

-- At a product the index stays.
pick_loop-product :
    (rest : Tail) (i index op : ℕ)
    → is_product op ≡ true
    → pick_loop i index op (map (λ o. o.0) rest) ≡ index
unfolding pick_loop
pick_loop-product [] i index op product = refl
pick_loop-product (o ∷ rest) i index op product =
    rw (product_or_sum op product) (pick_loop-product rest (i + 1) index op product)

-- At a sum it moves to the first product, if there is one.
pick_loop-sum :
    (rest : Tail) (i index op : ℕ)
    → is_sum op ≡ true
    → ((pick_loop i index op (map (λ o. o.0) rest) ≡ index) × NoProduct rest)
      ⊎ ((j : ℕ) × (pick_loop i index op (map (λ o. o.0) rest) ≡ i + j) × IsFirstProduct j rest)
unfolding pick_loop
pick_loop-sum [] i index op sum = inl (refl, tt)
pick_loop-sum ((o, b) ∷ rest) i index op sum = elim (Bool-cases (is_product o)) [
  | inl product ↦
      let here : i ≡ i + 0 = omega arith in
      inr (0, rw (sum, product) (pick_loop-product rest (i + 1) i o product ∙ here), product)
  | inr other ↦ elim (pick_loop-sum rest (i + 1) index op sum) [
    | inl (stays, none_left) ↦ inl (rw (sum, other) stays, (other, none_left))
    | inr (j, moves, at) ↦
        let next : i + 1 + j ≡ i + suc j = omega arith in
        inr (suc j, rw (sum, other) (moves ∙ next), (other, at))
  ]
]

bind_then :
    {A B C : Type 0} (o : Option A) (f : A → B) (g : B → Option C)
    → ((o >>= λ a. some (f a)) >>= g) ≡ (o >>= λ a. g (f a))
bind_then none f g = refl
bind_then (some a) f g = refl

-- What holds of the result, if there is one.
abbrev OnSome : {A : Type 0} → (A → Type 0) → Option A → Type 0
OnSome P none = Unit {0}
OnSome P (some a) = P a

always : {A : Type 0} (o : Option A) → OnSome (λ (a : A). Unit {0}) o
always none = tt
always (some a) = tt

OnSome-bind :
    {A B : Type 0} (P : A → Type 0) (Q : B → Type 0) (o : Option A) (f : A → B)
    → ((a : A) → P a → Q (f a))
    → OnSome P o
    → OnSome Q (o >>= λ a. some (f a))
OnSome-bind P Q none f maps holds = tt
OnSome-bind P Q (some a) f maps holds = maps a holds

bind_same :
    {A B : Type 0} (P : A → Type 0) (o : Option A) (f g : A → Option B)
    → OnSome P o
    → ((a : A) → P a → f a ≡ g a)
    → (o >>= f) ≡ (o >>= g)
bind_same P none f g holds same = refl
bind_same P (some a) f g holds same = same a holds

module _ (floats : Floats) where
  abbrev total : ℕ → ℕ → ℕ → ℕ
  total op a b = if op == b'-' then floats.subtract a b else floats.add a b

  -- A number behind a sum that waits for it.
  abbrev pub finish : Option (ℕ × ℕ) → ℕ → ℕ
  finish none n = n
  finish (some (a, op)) n = total op a n

  -- The order of school, from left to right: a product is computed at once, and a sum when its second
  -- term is complete.
  abbrev pub school : Option (ℕ × ℕ) → ℕ → Tail → Option ℕ
  school sum n [] = some (finish sum n)
  school sum n ((op, b) ∷ rest) =
      let times = school sum (floats.multiply n b) rest in
      let over = school sum (floats.divide n b) rest in
      let later = school (some (finish sum n, op)) b rest in
      if op == b'*'
      then times
      else if op == b'/'
      then (if floats.is_zero b then none else over)
      else later

  compute-school :
      (sum : Option (ℕ × ℕ)) (op n b : ℕ) (rest : Tail)
      → is_product op ≡ true
      → (compute floats op n b >>= λ c. school sum c rest) ≡ school sum n ((op, b) ∷ rest)
  unfolding compute
  compute-school sum op n b rest product = elim (Bool-cases (op == b'*')) [
    | inl times ↦
        let over : (op == b'/') ≡ false = ground (arith, times) in
        let minus : (op == b'-') ≡ false = ground (arith, times) in
        let plus : (op == b'+') ≡ false = ground (arith, times) in
        rw (minus, plus, over, times) refl
    | inr other ↦
        let over : (op == b'/') ≡ true = ground (arith, product, other) in
        let minus : (op == b'-') ≡ false = ground (arith, over) in
        let plus : (op == b'+') ≡ false = ground (arith, over) in
        elim (Bool-cases (floats.is_zero b)) [
          | inl zero_divisor ↦ rw (minus, plus, other, over, zero_divisor) refl
          | inr divides ↦ rw (minus, plus, other, over, divides) refl
        ]
  ]

  merge_at-school :
      (index : ℕ) (sum : Option (ℕ × ℕ)) (n : ℕ) (rest : Tail)
      → IsFirstProduct index rest
      → (merge_at floats index n rest >>= λ r. school sum r.0 r.1) ≡ school sum n rest
  unfolding merge_at
  merge_at-school index sum n [] at = absurd at
  merge_at-school zero sum n ((op, b) ∷ rest) at =
      bind_then (compute floats op n b) (λ c. (c, rest)) (λ r. school sum r.0 r.1)
      ∙ compute-school sum op n b rest at
  merge_at-school (suc index) sum n ((op, b) ∷ rest) (other, at) =
      bind_then (merge_at floats index b rest) (λ r. (n, (op, r.0) ∷ r.1)) (λ r. school sum r.0 r.1)
      ∙ bind_same (λ r. Unit {0}) (merge_at floats index b rest)
          (λ r. school sum n ((op, r.0) ∷ r.1)) (λ r. school (some (finish sum n, op)) r.0 r.1)
          (always (merge_at floats index b rest))
          (λ r _. rw (no_times op other, no_over op other) refl)
      ∙ merge_at-school index (some (finish sum n, op)) b rest at
      ∙ rw (no_times op other, no_over op other) refl

  -- A merge takes one operator away.
  abbrev IsShorter : Tail → ℕ × Tail → Type 0
  IsShorter rest r = (length r.1 + 1 ≡ length rest) × HasOperators r.1

  merge_at-IsShorter :
      (index n : ℕ) (rest : Tail)
      → index < length rest
      → HasOperators rest
      → OnSome (IsShorter rest) (merge_at floats index n rest)
  unfolding merge_at
  merge_at-IsShorter index n [] inside ops = absurd (omega arith)
  merge_at-IsShorter zero n ((op, b) ∷ rest) inside ops =
      OnSome-bind (λ _. Unit {0}) (IsShorter ((op, b) ∷ rest)) (compute floats op n b)
        (λ c. (c, rest)) (λ c _. (omega arith, ops.1)) (always (compute floats op n b))
  merge_at-IsShorter (suc index) n ((op, b) ∷ rest) inside ops =
      OnSome-bind (IsShorter rest) (IsShorter ((op, b) ∷ rest)) (merge_at floats index b rest)
        (λ r. (n, (op, r.0) ∷ r.1)) (λ r short. (omega (arith, short.0), (ops.0, short.1)))
        (merge_at-IsShorter index b rest (omega arith) ops.1)

  compute-total : (op a b : ℕ) → is_sum op ≡ true → compute floats op a b ≡ some (total op a b)
  unfolding compute
  compute-total op a b sum = elim (Bool-cases (op == b'-')) [
    | inl minus ↦ rw minus refl
    | inr other ↦
        let plus : (op == b'+') ≡ true = ground (arith, sum, other) in rw (other, plus) refl
  ]

  -- Without a product, the first sum may be computed first.
  merge_at-sums :
      (n op b : ℕ) (rest : Tail)
      → is_sum op ≡ true
      → NoProduct rest
      → (merge_at floats 0 n ((op, b) ∷ rest) >>= λ r. school none r.0 r.1)
        ≡ school none n ((op, b) ∷ rest)
  unfolding merge_at
  merge_at-sums n op b [] sum plain =
      let other = sum_or_product op sum in
      rw (compute-total op n b sum, no_times op other, no_over op other) refl
  merge_at-sums n op b ((o, c) ∷ rest) sum plain =
      let other = sum_or_product op sum in
      rw
        (
          compute-total op n b sum,
          no_times op other,
          no_over op other,
          no_times o plain.0,
          no_over o plain.0,
        )
        refl

  IsFirstProduct-inside :
      (index : ℕ) (rest : Tail) → IsFirstProduct index rest → index < length rest
  IsFirstProduct-inside index [] at = absurd at
  IsFirstProduct-inside zero (o ∷ rest) at = omega arith
  IsFirstProduct-inside (suc index) (o ∷ rest) at =
      omega (arith, IsFirstProduct-inside index rest at.1)

  -- The index that is picked is that of an operator, and the merge there keeps the value.
  picked-school :
      (n op b : ℕ) (rest : Tail)
      → HasOperators ((op, b) ∷ rest)
      → let index = pick_index (map (λ o. o.0) ((op, b) ∷ rest)) in
        (index < length ((op, b) ∷ rest))
        × ((merge_at floats index n ((op, b) ∷ rest) >>= λ r. school none r.0 r.1)
            ≡ school none n ((op, b) ∷ rest))
  unfolding pick_index
  picked-school n op b rest (inr product, ops) =
      rw (pick_loop-product rest 1 0 op product)
        (omega arith, merge_at-school 0 none n ((op, b) ∷ rest) product)
  picked-school n op b rest (inl sum, ops) = elim (pick_loop-sum rest 1 0 op sum) [
    | inl (stays, plain) ↦ rw stays (omega arith, merge_at-sums n op b rest sum plain)
    | inr (j, moves, at) ↦
        let index : 1 + j ≡ suc j = omega arith in
        rw (moves, index)
          (
            omega (arith, IsFirstProduct-inside j rest at),
            merge_at-school (suc j) none n ((op, b) ∷ rest) (sum_or_product op sum, at),
          )
  ]

  reduce-counted :
      (count n : ℕ) (rest : Tail)
      → length rest ≡ count
      → HasOperators rest
      → reduce floats (suc count) n rest ≡ school none n rest
  unfolding reduce merge_at pick_index
  reduce-counted zero n [] long ops = refl
  reduce-counted (suc count) n [] long ops = absurd (omega (arith, long))
  reduce-counted zero n (o ∷ rest) long ops = absurd (omega (arith, long))
  reduce-counted (suc count) n ((op, b) ∷ rest) long ops =
      let index = pick_index (map (λ o. o.0) ((op, b) ∷ rest)) in
      let (inside, kept) = picked-school n op b rest ops in
      bind_same (IsShorter ((op, b) ∷ rest)) (merge_at floats index n ((op, b) ∷ rest))
        (λ r. reduce floats (suc count) r.0 r.1) (λ r. school none r.0 r.1)
        (merge_at-IsShorter index n ((op, b) ∷ rest) inside ops)
        (λ r short. reduce-counted count r.0 r.1 (omega (arith, short.0, long)) short.1)
      ∙ kept

-- The loop of `shell_eval_math_exp`, with as many rounds as there are numbers, computes an expression
-- of the four operators in school order: products before sums, and each from left to right; or it
-- finds a division by zero exactly when that order does.
pub reduce-school :
    (floats : Floats) (n : ℕ) (rest : Tail)
    → HasOperators rest
    → reduce floats (length rest + 1) n rest ≡ school floats none n rest
reduce-school floats n rest ops =
    let rounds : length rest + 1 ≡ suc (length rest) = omega arith in
    rw rounds (reduce-counted floats (length rest) n rest refl ops)
