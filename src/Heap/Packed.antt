-- ===== src/Heap/Packed.antt =====
-- Regions in which no two neighbours are free, and what merging makes of the others.
use almorina_os.Prelude.{
  ℕ, ◌+◌, ◌-◌, ◌≤◌, ◌<◌, ◌≡◌, ◌≢◌, refl, ap, ◌∙◌, inl, inr, Bool, true, false, ◌&&◌, List, [], ◌∷◌,
  arith, ltb, ◌==◌, Bool-cases,
}
use almorina_os.Heap.Blocks.{
  Block, block, alloc, alloc-exact, alloc-larger, alloc-tight, join, coalesce, mark,
}

abbrev first_free : List Block → Bool
first_free [] = false
first_free (b ∷ bs) = b.free

-- No two neighbours are free.
abbrev pub Packed : List Block → Type 0
Packed [] = Unit {0}
Packed (b ∷ bs) = ((b.free && first_free bs) ≡ false) × Packed bs

join-apart :
    (b : Block) (bs : List Block) → (b.free && first_free bs) ≡ false → join b bs ≡ b ∷ coalesce bs
unfolding coalesce join
join-apart b [] apart = refl
join-apart b (c ∷ bs) apart = rw (apart, join)

pub coalesce-eq_of_Packed : (bs : List Block) → Packed bs → coalesce bs ≡ bs
unfolding coalesce
coalesce-eq_of_Packed [] p = refl
coalesce-eq_of_Packed (b ∷ bs) p =
    join-apart b bs p.0 ∙ ap (λ r. b ∷ r) (coalesce-eq_of_Packed bs p.1)

first_free-join : (b : Block) (bs : List Block) → first_free (join b bs) ≡ b.free
unfolding join
first_free-join b [] = refl
first_free-join b (c ∷ bs) = elim (Bool-cases (b.free && c.free)) [
  | inl both ↦ rw (both, join) (first_free-join (block (b.len + (c.len + 24)) b.free) bs)
  | inr apart ↦ rw (apart, join)
]

join-Packed : (b : Block) (bs : List Block) → Packed (join b bs)
unfolding join
join-Packed b [] = ground arith
join-Packed b (c ∷ bs) = elim (Bool-cases (b.free && c.free)) [
  | inl both ↦ rw (both, join) (join-Packed (block (b.len + (c.len + 24)) b.free) bs)
  | inr apart ↦ rw (apart, join) (ground (arith, first_free-join c bs, apart), join-Packed c bs)
]

-- Merging leaves no two free neighbours.
pub coalesce-Packed : (bs : List Block) → Packed (coalesce bs)
unfolding coalesce
coalesce-Packed [] = tt
coalesce-Packed (b ∷ bs) = join-Packed b bs

-- `alloc` only turns a free block into a live one, with a free rest behind it.
first_free-alloc :
    (n a : ℕ) (bs : List Block) → first_free bs ≡ false → first_free (alloc n a bs).1 ≡ false
unfolding alloc
first_free-alloc n a [] h = refl
first_free-alloc n a (b ∷ bs) h = ground arith

pub alloc-Packed : (n a : ℕ) (bs : List Block) → Packed bs → Packed (alloc n a bs).1
unfolding alloc
alloc-Packed n a [] p = tt
alloc-Packed n a (b ∷ bs) p = ground (
  arith,
  p.0,
  p.1,
  alloc-Packed n (a + 24 + b.len) bs p.1,
  first_free-alloc n (a + 24 + b.len) bs,
)

-- The payload that `alloc` returns lies behind the start of the region.
pub alloc-pointer : (n a : ℕ) (bs : List Block) → (alloc n a bs).0 ≢ 0 → a + 24 ≤ (alloc n a bs).0
unfolding alloc
alloc-pointer n a [] h = absurd (h refl)
alloc-pointer n a (b ∷ bs) h = ground (arith, alloc-pointer n (a + 24 + b.len) bs)

-- What giving the new block back does to the blocks: as if nothing had been allocated, but for a
-- split that is still there.
first_free-mark-alloc :
    (n a : ℕ) (bs : List Block)
    → (alloc n a bs).0 ≢ 0
    → first_free (mark (alloc n a bs).0 a (alloc n a bs).1) ≡ first_free bs
unfolding alloc mark
first_free-mark-alloc n a [] h = absurd (h refl)
first_free-mark-alloc n a (b ∷ bs) h = ground (arith, alloc-pointer n (a + 24 + b.len) bs)

alloc-nil : (n a : ℕ) → (alloc n a []).0 ≡ 0
unfolding alloc
alloc-nil n a = refl

mark-first :
    (a : ℕ) (b : Block) (bs : List Block) → mark (a + 24) a (b ∷ bs) ≡ block b.len true ∷ bs
unfolding mark
mark-first a b bs = ground arith

mark-later :
    (ptr a : ℕ) (b : Block) (bs : List Block)
    → a + 24 < ptr
    → mark ptr a (b ∷ bs) ≡ b ∷ mark ptr (a + 24 + b.len) bs
unfolding mark
mark-later ptr a b bs h = ground arith

pub coalesce-mark-alloc :
    (n a : ℕ) (bs : List Block)
    → Packed bs
    → (alloc n a bs).0 ≢ 0
    → coalesce (mark (alloc n a bs).0 a (alloc n a bs).1) ≡ bs
unfolding coalesce join
coalesce-mark-alloc n a [] p h = absurd (h (alloc-nil n a))
coalesce-mark-alloc n a (b ∷ bs) p h = elim (Bool-cases (b.free && b.len == n)) [
  | inl exact ↦
      rw (alloc-exact n a b bs exact, mark-first a (block n false) bs)
        (let same : block n true ≡ b = ground arith in rw same (coalesce-eq_of_Packed (b ∷ bs) p))
  | inr differs ↦ elim (Bool-cases (b.free && ltb (n + 24) b.len)) [
    | inl larger ↦
        rw
          (
            alloc-larger n a b bs differs larger,
            mark-first a (block n false) (block (b.len - n - 24) true ∷ bs),
          )
          (let whole : block (n + ((b.len - n - 24) + 24)) true ≡ b = ground arith in
            rw (join, whole) (coalesce-eq_of_Packed (b ∷ bs) p))
    | inr tight ↦
        let e = alloc-tight n a b bs differs tight in
        let found : (alloc n (a + 24 + b.len) bs).0 ≢ 0 = rw e at h in
        rw
          (
            e,
            mark-later (alloc n (a + 24 + b.len) bs).0 a b (alloc n (a + 24 + b.len) bs).1
                (omega (arith, alloc-pointer n (a + 24 + b.len) bs found)),
          )
          (join-apart b _ (rw (first_free-mark-alloc n (a + 24 + b.len) bs found) p.0)
            ∙ ap (λ r. b ∷ r) (coalesce-mark-alloc n (a + 24 + b.len) bs p.1 found))
  ]
]
