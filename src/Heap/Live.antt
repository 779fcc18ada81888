-- ===== src/Heap/Live.antt =====
-- The live blocks of a region, as (payload address, size), and what the operations do to them.
use almorina_os.Prelude.{
  ℕ, ◌+◌, ◌-◌, ◌≤◌, ◌<◌, ◌≡◌, ◌≢◌, refl, ap, ◌∙◌, inl, inr, Bool, true, false, ◌&&◌, ◌||◌, List,
  length, [], ◌∷◌, ◌++◌, arith, ltb, ◌==◌, if◌then◌else◌, Bool-cases, All,
}
use almorina_os.Heap.{MemSegment}
use almorina_os.Heap.Blocks.{
  Block, block, Laid, alloc, alloc-exact, alloc-larger, alloc-tight, join, coalesce, owns, mark,
}

abbrev pub live : ℕ → List Block → List (ℕ × ℕ)
live a [] = []
live a (b ∷ bs) =
    let rest = live (a + 24 + b.len) bs in if b.free then rest else (a + 24, b.len) ∷ rest

-- Payloads in address order, each with room for its header behind the one before, up to `e`.
abbrev pub Spaced : ℕ → ℕ → List (ℕ × ℕ) → Type 0
Spaced a e [] = a ≤ e
Spaced a e ((p, n) ∷ r) = (a + 24 ≤ p) × Spaced (p + n) e r

Spaced-le : (r : List (ℕ × ℕ)) (a b e : ℕ) → a ≤ b → Spaced b e r → Spaced a e r
Spaced-le [] a b e h s = omega arith
Spaced-le ((p, n) ∷ r) a b e h s = (omega arith, s.1)

-- The live blocks of a region do not overlap, neither each other nor a header.
pub live-Spaced :
    (bs : List Block) (cell : ℕ → MemSegment) (p a e : ℕ)
    → Laid cell p a e bs
    → Spaced a e (live a bs)
live-Spaced [] cell p a e l = omega arith
live-Spaced (b ∷ bs) cell p a e (at, len, flag, rest) =
    let next = live-Spaced bs cell _ (a + 24 + b.len) e rest in
    elim (Bool-cases b.free) [
      | inl unused ↦ rw unused (Spaced-le _ a (a + 24 + b.len) e (omega arith) next)
      | inr used ↦ rw used (omega arith, next)
    ]

-- The blocks of `before` with one more, `(p, n)`, at some place.
pub record Inserted (p n : ℕ) (before after : List (ℕ × ℕ)) : Type 0 where
  pub front : List (ℕ × ℕ)
  pub back : List (ℕ × ℕ)
  pub old : before ≡ front ++ back
  pub new : after ≡ front ++ ((p, n) ∷ back)

Inserted-cons :
    {p n : ℕ} {before after : List (ℕ × ℕ)} (x : ℕ × ℕ)
    → Inserted p n before after
    → Inserted p n (x ∷ before) (x ∷ after)
Inserted-cons x i = record {
  front = x ∷ i.front;
  back = i.back;
  old = ap (λ r. x ∷ r) i.old;
  new = ap (λ r. x ∷ r) i.new;
}

-- A successful allocation adds exactly one live block, of exactly the size asked for.
pub live-alloc :
    (n a : ℕ) (bs : List Block)
    → (alloc n a bs).0 ≢ 0
    → Inserted (alloc n a bs).0 n (live a bs) (live a (alloc n a bs).1)
unfolding alloc
live-alloc n a [] h = absurd (h refl)
live-alloc n a (b ∷ bs) h = elim (Bool-cases (b.free && b.len == n)) [
  | inl exact ↦ rw (alloc-exact n a b bs exact) (record {
    front = [];
    back = live (a + 24 + b.len) bs;
    old = ground arith;
    new = ground arith;
  })
  | inr differs ↦ elim (Bool-cases (b.free && ltb (n + 24) b.len)) [
    | inl larger ↦
        let end : a + 24 + n + 24 + (b.len - n - 24) ≡ a + 24 + b.len = ground arith in
        rw (alloc-larger n a b bs differs larger) (record {
          front = [];
          back = live (a + 24 + b.len) bs;
          old = ground arith;
          new = ground (arith, end);
        })
    | inr tight ↦
        let e = alloc-tight n a b bs differs tight in
        rw e (later (alloc n (a + 24 + b.len) bs).1 (live-alloc n (a + 24 + b.len) bs (rw e at h)))
  ]
]
  where
    later :
        {p : ℕ} (rest : List Block)
        → Inserted p n (live (a + 24 + b.len) bs) (live (a + 24 + b.len) rest)
        → Inserted p n (live a (b ∷ bs)) (live a (b ∷ rest))
    later rest i = elim (Bool-cases b.free) [
      | inl unused ↦ rw unused i
      | inr used ↦ rw used (Inserted-cons (a + 24, b.len) i)
    ]

-- The live blocks but the one at `ptr`.
abbrev pub without : ℕ → List (ℕ × ℕ) → List (ℕ × ℕ)
without ptr [] = []
without ptr ((p, n) ∷ r) = if p == ptr then without ptr r else (p, n) ∷ without ptr r

without_above : (bs : List Block) (ptr a : ℕ) → ptr < a + 24 → without ptr (live a bs) ≡ live a bs
without_above [] ptr a h = refl
without_above (b ∷ bs) ptr a h = ground (arith, without_above bs ptr (a + 24 + b.len))

live-mark : (bs : List Block) (ptr a : ℕ) → live a (mark ptr a bs) ≡ without ptr (live a bs)
unfolding mark
live-mark [] ptr a = refl
live-mark (b ∷ bs) ptr a =
    ground (arith, live-mark bs ptr (a + 24 + b.len), without_above bs ptr (a + 24 + b.len))

live-join : (b : Block) (bs : List Block) (a : ℕ) → live a (join b bs) ≡ live a (b ∷ bs)
unfolding join
live-join b [] a = refl
live-join b (c ∷ bs) a = elim (Bool-cases (b.free && c.free)) [
  | inl both ↦
      let end : a + 24 + (b.len + (c.len + 24)) ≡ a + 24 + b.len + 24 + c.len = omega arith in
      rw (both, join) (live-join (block (b.len + (c.len + 24)) b.free) bs a ∙ ground (arith, end))
  | inr apart ↦ rw (apart, join) (ground (arith, live-join c bs (a + 24 + b.len)))
]

-- Giving a block back removes exactly that block from the live ones.
pub live-release :
    (bs : List Block) (ptr a : ℕ) → live a (coalesce (mark ptr a bs)) ≡ without ptr (live a bs)
unfolding coalesce
live-release bs ptr a = live-coalesce (mark ptr a bs) ∙ live-mark bs ptr a
  where
    live-coalesce : (cs : List Block) → live a (coalesce cs) ≡ live a cs
    live-coalesce [] = refl
    live-coalesce (c ∷ cs) = live-join c cs a

-- Whether first fit can take a block for `n` bytes.
abbrev pub fits : ℕ → Block → Bool
fits n b = b.free && (b.len == n || ltb (n + 24) b.len)

-- A failed allocation changes nothing, and fails only when no block fits.
pub alloc-fails :
    (n a : ℕ) (bs : List Block)
    → (alloc n a bs).0 ≡ 0
    → ((alloc n a bs).1 ≡ bs) × All (λ b. fits n b ≡ false) bs
unfolding alloc
alloc-fails n a [] h = (refl, tt)
alloc-fails n a (b ∷ bs) h = ground (arith, alloc-fails n (a + 24 + b.len) bs)

pub alloc-succeeds :
    (n a : ℕ) (bs : List Block) → All (λ b. fits n b ≡ false) bs → (alloc n a bs).0 ≡ 0
unfolding alloc
alloc-succeeds n a [] h = refl
alloc-succeeds n a (b ∷ bs) h = ground (arith, alloc-succeeds n (a + 24 + b.len) bs)

-- The block that was allocated can be found again.
pub owns-alloc :
    (n a : ℕ) (bs : List Block)
    → (alloc n a bs).0 ≢ 0
    → owns (alloc n a bs).0 a (alloc n a bs).1 ≡ true
unfolding alloc owns
owns-alloc n a [] h = absurd (h refl)
owns-alloc n a (b ∷ bs) h = ground (arith, owns-alloc n (a + 24 + b.len) bs)

pub length-alloc : (n a : ℕ) (bs : List Block) → length (alloc n a bs).1 ≤ length bs + 1
unfolding alloc
length-alloc n a [] = omega arith
length-alloc n a (b ∷ bs) = ground (arith, length-alloc n (a + 24 + b.len) bs)
