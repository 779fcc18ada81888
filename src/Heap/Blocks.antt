-- ===== src/Heap/Blocks.antt =====
-- The abstract heap: the blocks of a region in address order, and what it is for the headers in
-- memory to be laid out as those blocks.
use almorina_os.Prelude.{
  ℕ, ◌+◌, ◌-◌, ◌<◌, ◌≤◌, ◌≡◌, Bool, true, false, ◌&&◌, List, [], ◌∷◌, arith, ltb, ◌==◌,
  if◌then◌else◌,
}
use almorina_os.Prelude.Store.{update}
use almorina_os.Heap.{MemSegment}

pub record Block : Type 0 where
  pub len : ℕ
  pub free : Bool

abbrev pub block : ℕ → Bool → Block
block n f = record { len = n; free = f }

-- From `p` the headers stand one behind the other, each followed by its payload: they fill the
-- region from `a` to `e` exactly, and the last one's `next` is null.
abbrev pub Laid : (ℕ → MemSegment) → ℕ → ℕ → ℕ → List Block → Type 0
Laid cell p a e [] = (p ≡ 0) × (a ≡ e)
Laid cell p a e (b ∷ bs) =
    (p ≡ a)
    × ((cell a).len ≡ b.len)
    × ((cell a).free ≡ b.free)
    × Laid cell (cell a).next (a + 24 + b.len) e bs

-- A write in front of the region does not touch it.
pub Laid-update :
    (bs : List Block) (cell : ℕ → MemSegment) (p a e q : ℕ) (s : MemSegment)
    → q < a
    → Laid cell p a e bs
    → Laid (update cell q s) p a e bs
Laid-update [] cell p a e q s lt l = l
Laid-update (b ∷ bs) cell p a e q s lt (at, len, free, rest) =
    ground (arith, Laid-update bs cell (cell a).next (a + 24 + b.len) e q s)

-- The region is as long as its headers and payloads.
pub Laid-le : (bs : List Block) (cell : ℕ → MemSegment) (p a e : ℕ) → Laid cell p a e bs → a ≤ e
Laid-le [] cell p a e l = omega arith
Laid-le (b ∷ bs) cell p a e (at, len, free, rest) =
    omega (arith, Laid-le bs cell (cell a).next (a + 24 + b.len) e rest)

-- First fit: the payload address, or 0, and the blocks after the allocation.
unfoldable pub alloc : ℕ → ℕ → List Block → ℕ × List Block
alloc n a [] = (0, [])
alloc n a (b ∷ bs) =
    let (p, rest) = alloc n (a + 24 + b.len) bs in
    if b.free && b.len == n
    then (a + 24, block n false ∷ bs)
    else if b.free && ltb (n + 24) b.len
    then (a + 24, block n false ∷ block (b.len - n - 24) true ∷ bs)
    else (p, b ∷ rest)

-- One equation for each way that a block is taken or passed over.
module _ (n a : ℕ) (b : Block) (bs : List Block) where
  pub alloc-exact :
      (b.free && b.len == n) ≡ true → alloc n a (b ∷ bs) ≡ (a + 24, block n false ∷ bs)
  unfolding alloc
  alloc-exact exact = rw exact

  pub alloc-larger :
      (b.free && b.len == n) ≡ false
      → (b.free && ltb (n + 24) b.len) ≡ true
      → alloc n a (b ∷ bs) ≡ (a + 24, block n false ∷ block (b.len - n - 24) true ∷ bs)
  unfolding alloc
  alloc-larger differs larger = rw (differs, larger)

  pub alloc-tight :
      (b.free && b.len == n) ≡ false
      → (b.free && ltb (n + 24) b.len) ≡ false
      → alloc n a (b ∷ bs) ≡ ((alloc n (a + 24 + b.len) bs).0, b ∷ (alloc n (a + 24 + b.len) bs).1)
  unfolding alloc
  alloc-tight differs tight = rw (differs, tight)

-- Neighbouring free blocks become one, together with the header between them.
unfoldable pub join : Block → List Block → List Block
join b [] = b ∷ []
join b (c ∷ bs) = elim (b.free && c.free) [
  | true ↦ join (block (b.len + (c.len + 24)) b.free) bs
  | false ↦ b ∷ join c bs
]

unfoldable pub coalesce : List Block → List Block
unfolding join
coalesce [] = []
coalesce (b ∷ bs) = join b bs

-- Whether `ptr` is the payload address of a block.
unfoldable pub owns : ℕ → ℕ → List Block → Bool
owns ptr a [] = false
owns ptr a (b ∷ bs) = if a + 24 == ptr then true else owns ptr (a + 24 + b.len) bs

-- The block at `ptr` becomes free.
unfoldable pub mark : ℕ → ℕ → List Block → List Block
mark ptr a [] = []
mark ptr a (b ∷ bs) =
    if a + 24 == ptr then block b.len true ∷ bs else b ∷ mark ptr (a + 24 + b.len) bs
