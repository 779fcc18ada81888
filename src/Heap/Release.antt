-- ===== src/Heap/Release.antt =====
-- `merge` coalesces the blocks of the region, and `free` gives one back.
use almorina_os.Prelude.{
  ℕ, zero, suc, ◌+◌, ◌≤◌, ◌<◌, ◌^◌, ◌≡◌, refl, ap, ◌∙◌, inl, inr, List, [], ◌∷◌, some, arith,
  length, ==→eq, eq→==, Bool-cases, ◌==◌, true, false, ◌&&◌,
}
use mathlib.Core.Path.{subst}
use almorina_os.Prelude.Store.{update, update_self, update_ne}
use almorina_os.Heap.{Heap, write, absorbed, freed, merge_loop, merge, find_loop, release_at, free}
use almorina_os.Heap.Blocks.{Block, block, Laid, Laid-update, Laid-le, join, coalesce, owns, mark}

-- What a run of the merging loop from the segment at `a` leaves.
record Merged (h : Heap) (a e p : ℕ) (bs : List Block) (h' : Heap) : Type 0 where
  laid : Laid h'.cell p a e (coalesce bs)
  same : (q : ℕ) → q < a → h'.cell q ≡ h.cell q
  start : h'.heap ≡ h.heap
  first : h'.free_seg ≡ h.free_seg

coalesce-apart :
    (b c : Block) (bs : List Block)
    → (b.free && c.free) ≡ false
    → coalesce (b ∷ c ∷ bs) ≡ b ∷ coalesce (c ∷ bs)
unfolding coalesce join
coalesce-apart b c bs apart = rw (apart, join)

coalesce-both :
    (b c : Block) (bs : List Block)
    → (b.free && c.free) ≡ true
    → coalesce (b ∷ c ∷ bs) ≡ coalesce (block (b.len + (c.len + 24)) b.free ∷ bs)
unfolding coalesce join
coalesce-both b c bs both = rw (both, join)

-- A block that stays by itself is passed over.
Merged-step :
    (b c : Block) (bs : List Block) (h : Heap) (p a e : ℕ) (h' : Heap)
    → (b.free && c.free) ≡ false
    → p ≡ a
    → (h.cell a).len ≡ b.len
    → (h.cell a).free ≡ b.free
    → Merged h (a + 24 + b.len) e (h.cell a).next (c ∷ bs) h'
    → Merged h a e p (b ∷ c ∷ bs) h'
Merged-step b c bs h p a e h' apart at len flag got = record {
  laid =
      rw (coalesce-apart b c bs apart)
        (at, ground (arith, kept), ground (arith, kept), rw (ap (λ s. s.next) kept) got.laid);
  same = λ q lt. got.same q (omega arith);
  start = got.start;
  first = got.first;
}
  where
    kept : h'.cell a ≡ h.cell a
    kept = got.same a (omega arith)

-- The header between two free neighbours is given up.
Laid-join :
    (b c : Block) (bs : List Block) (h : Heap) (a e : ℕ)
    → e < 2 ^ 64
    → Laid h.cell a a e (b ∷ c ∷ bs)
    → Laid (write h a (absorbed h a)).cell a a e (block (b.len + (c.len + 24)) b.free ∷ bs)
Laid-join b c bs h a e fits (at, len, flag, (next, len', flag', rest)) =
    let end : a + 24 + b.len + 24 + c.len ≤ e = Laid-le bs h.cell _ _ e rest in
    let there : a + 24 + (b.len + (c.len + 24)) ≡ a + 24 + b.len + 24 + c.len = omega arith in
    let tail : Laid (update h.cell a (absorbed h a)) (h.cell (a + 24 + b.len)).next
        (a + 24 + b.len + 24 + c.len) e bs =
      Laid-update bs h.cell _ _ e a (absorbed h a) (omega arith) rest in
    let new : update h.cell a (absorbed h a) a ≡ absorbed h a =
      update_self h.cell a (absorbed h a) in
    let right : (h.cell (h.cell a).next).len ≡ c.len = ap (λ q. (h.cell q).len) next ∙ len' in
    let total : (absorbed h a).len ≡ b.len + (c.len + 24) = omega arith in
    rw there (
      refl,
      ap (λ s. s.len) new ∙ total,
      ap (λ s. s.free) new ∙ flag,
      rw (ap (λ s. s.next) new ∙ ap (λ q. (h.cell q).next) next) tail,
    )

merge_loop-coalesce :
    (fuel : ℕ) (bs : List Block) (h : Heap) (p a e : ℕ)
    → length bs < fuel
    → 0 < a
    → e < 2 ^ 64
    → Laid h.cell p a e bs
    → (h' : Heap) × (merge_loop fuel p h ≡ some h') × Merged h a e p bs h'
unfolding merge_loop coalesce join
merge_loop-coalesce zero bs h p a e enough pos fits l = absurd (omega arith)
merge_loop-coalesce (suc fuel) [] h p a e enough pos fits l = (h, ground arith, ground arith)
merge_loop-coalesce (suc fuel) (b ∷ []) h p a e enough pos fits (at, len, flag, rest) =
    (h, ground arith, ground arith)
merge_loop-coalesce (suc fuel) (b ∷ c ∷ bs) h p a e enough pos fits
      (at, len, flag, (next, len', flag', rest)) =
    let end : a + 24 + b.len + 24 + c.len ≤ e = Laid-le bs h.cell _ _ e rest in
    elim (Bool-cases (b.free && c.free)) [
      | inl both ↦
          let (h', run, got) =
            merge_loop-coalesce fuel (block (b.len + (c.len + 24)) b.free ∷ bs)
              (write h a (absorbed h a)) a a e (omega arith) pos fits
              (Laid-join b c bs h a e fits (refl, len, flag, (next, len', flag', rest))) in
          (
            h',
            rw at (ground (arith, run)),
            record {
              laid = rw (at, coalesce-both b c bs both) got.laid;
              same = λ q lt. got.same q lt ∙ ground arith;
              start = got.start;
              first = got.first;
            },
          )
      | inr not_both ↦
          let (h', run, got) =
            merge_loop-coalesce fuel (c ∷ bs) h (h.cell a).next (a + 24 + b.len) e (omega arith)
              (omega arith) fits (next, len', flag', rest) in
          (h', ground (arith, run), Merged-step b c bs h p a e h' not_both at len flag got)
    ]

pub merge_refines :
    (fuel a e : ℕ) (h : Heap) (bs : List Block)
    → length bs < fuel
    → 0 < a
    → e < 2 ^ 64
    → Laid h.cell h.free_seg a e bs
    → (h' : Heap) × (merge fuel h ≡ some h')
      × Laid h'.cell h'.free_seg a e (coalesce bs)
      × (h'.heap ≡ h.heap)
      × (h'.free_seg ≡ h.free_seg)
unfolding merge
merge_refines fuel a e h bs enough pos fits l =
    let (h', run, got) = merge_loop-coalesce fuel bs h h.free_seg a e enough pos fits l in
    (h', run, rw got.first got.laid, got.start, got.first)

-- What the walk of `free` finds: null if no block has the pointer, and otherwise the segment in
-- front of it, whose flag alone changes when it is marked.
record Found (h : Heap) (ptr p a e : ℕ) (bs : List Block) (r : ℕ) : Type 0 where
  missing : owns ptr a bs ≡ false → r ≡ 0
  present : owns ptr a bs ≡ true → (r + 24 ≡ ptr) × (a ≤ r)
  marked : owns ptr a bs ≡ true → Laid (update h.cell r (freed h r)) p a e (mark ptr a bs)

Found-here :
    (b : Block) (bs : List Block) (h : Heap) (ptr p a e : ℕ)
    → 0 < a
    → a + 24 ≡ ptr
    → p ≡ a
    → (h.cell a).len ≡ b.len
    → Laid h.cell (h.cell a).next (a + 24 + b.len) e bs
    → Found h ptr p a e (b ∷ bs) a
unfolding owns mark
Found-here b bs h ptr p a e pos here at len rest =
    let new : update h.cell a (freed h a) a ≡ freed h a = update_self h.cell a (freed h a) in
    let tail = Laid-update bs h.cell _ _ e a (freed h a) (omega arith) rest in
    let hit : (a + 24 == ptr) ≡ true = eq→== _ _ here in
    record {
      missing = λ no_owner. ground arith;
      present = λ _. (here, omega arith);
      marked = λ _.
          rw hit
            (at, ap (λ s. s.len) new ∙ len, ap (λ s. s.free) new, rw (ap (λ s. s.next) new) tail);
    }

Found-further :
    (b : Block) (bs : List Block) (h : Heap) (ptr p a e r : ℕ)
    → (a + 24 == ptr) ≡ false
    → p ≡ a
    → (h.cell a).len ≡ b.len
    → (h.cell a).free ≡ b.free
    → Found h ptr (h.cell a).next (a + 24 + b.len) e bs r
    → Found h ptr p a e (b ∷ bs) r
unfolding owns mark
Found-further b bs h ptr p a e r further at len flag got = record {
  missing = λ no_owner. got.missing (ground arith);
  present = λ owner. ground (arith, got.present (ground arith));
  marked = λ owner.
      let later : a + 24 + b.len ≤ r = (got.present (ground arith)).1 in
      let kept : update h.cell r (freed h r) a ≡ h.cell a =
        update_ne h.cell r a (freed h r) (omega arith) in
      rw further (
        at,
        ap (λ s. s.len) kept ∙ len,
        ap (λ s. s.free) kept ∙ flag,
        rw (ap (λ s. s.next) kept) (got.marked (ground arith)),
      );
}

find_loop-Found :
    (fuel : ℕ) (bs : List Block) (h : Heap) (ptr p a e : ℕ)
    → length bs < fuel
    → 0 < a
    → e < 2 ^ 64
    → Laid h.cell p a e bs
    → (r : ℕ) × (find_loop fuel p ptr h ≡ some r) × Found h ptr p a e bs r
unfolding find_loop owns mark
find_loop-Found zero bs h ptr p a e enough pos fits l = absurd (omega arith)
find_loop-Found (suc fuel) [] h ptr p a e enough pos fits l =
    (0, ground arith, record { missing = λ _. refl; present = λ x. cc; marked = λ x. cc })
find_loop-Found (suc fuel) (b ∷ bs) h ptr p a e enough pos fits (at, len, flag, rest) =
    let end : a + 24 + b.len ≤ e = Laid-le bs h.cell _ _ e rest in
    elim (Bool-cases (a + 24 == ptr)) [
      | inl here ↦ (a, ground arith, Found-here b bs h ptr p a e pos (==→eq _ _ here) at len rest)
      | inr further ↦
          let (r, run, got) =
            find_loop-Found fuel bs h ptr (h.cell a).next (a + 24 + b.len) e (omega arith)
              (omega arith) fits rest in
          (r, ground (arith, run), Found-further b bs h ptr p a e r further at len flag got)
    ]

length-mark : (ptr a : ℕ) (bs : List Block) → length (mark ptr a bs) ≡ length bs
unfolding mark
length-mark ptr a [] = refl
length-mark ptr a (b ∷ bs) = ground (arith, length-mark ptr (a + 24 + b.len) bs)

pub free-refused :
    (fuel ptr a e : ℕ) (h : Heap) (bs : List Block)
    → length bs < fuel
    → 0 < a
    → e < 2 ^ 64
    → Laid h.cell h.heap a e bs
    → owns ptr a bs ≡ false
    → free fuel ptr h ≡ some (false, h)
unfolding free
free-refused fuel ptr a e h bs enough pos fits l foreign =
    let (r, run, got) = find_loop-Found fuel bs h ptr h.heap a e enough pos fits l in
    let null : r ≡ 0 = got.missing foreign in rw (run, null, free)

free-found :
    (fuel ptr r : ℕ) (h h' : Heap)
    → find_loop fuel h.heap ptr h ≡ some r
    → 0 < r
    → merge fuel (write h r (freed h r)) ≡ some h'
    → free fuel ptr h ≡ some (true, h')
unfolding free
free-found fuel ptr zero h h' run pos done = absurd (omega arith)
free-found fuel ptr (suc r) h h' run pos done = rw (run, free) (rw (done, release_at))

pub free_refines :
    (fuel ptr a e : ℕ) (h : Heap) (bs : List Block)
    → length bs < fuel
    → 0 < a
    → e < 2 ^ 64
    → h.heap ≡ h.free_seg
    → Laid h.cell h.heap a e bs
    → owns ptr a bs ≡ true
    → (h' : Heap) × (free fuel ptr h ≡ some (true, h'))
      × Laid h'.cell h'.free_seg a e (coalesce (mark ptr a bs))
      × (h'.heap ≡ h.heap)
      × (h'.free_seg ≡ h.free_seg)
free_refines fuel ptr a e h bs enough pos fits same l owner =
    let (r, run, got) = find_loop-Found fuel bs h ptr h.heap a e enough pos fits l in
    let (h', done, laid, start, first) =
      merge_refines fuel a e (write h r (freed h r)) (mark ptr a bs)
        (omega (arith, length-mark ptr a bs)) pos fits
        (subst (λ s. Laid (update h.cell r (freed h r)) s a e (mark ptr a bs)) same
          (got.marked owner)) in
    (
      h',
      free-found fuel ptr r h h' run (omega (arith, (got.present owner).1)) done,
      laid,
      start,
      first,
    )
