-- ===== src/Shell/Output/Preorder.antt =====
-- The tree that `print_fs_tree` prints.
use Prim.Native.Nat.{max}
use almorina_os.Prelude.{
  Bool, Bool-cases, inl, inr, ℕ, zero, suc, ◌+◌, ◌*◌, ◌<◌, ◌≡◌, refl, ap, ◌∙◌, arith, true, false,
  not, some, List, [], ◌∷◌, ◌++◌, map, replicate, ◌==◌, if◌then◌else◌,
}
use almorina_os.Fs.{Fs}
use almorina_os.Cstring.{Memory}
use almorina_os.Fs.Word.{load}
use almorina_os.Shell.Output.{
  Piece, text, string_at, decimal, taken_entries, entries_in_blocks, entry_line, tree_entries,
  print_fs_tree, tree,
}

-- The entries of a directory, each by its address: one that is no directory, or one that is, with its
-- own entries.
pub data Forest : Type 0 where
  empty : Forest
  leaf : ℕ → Forest → Forest
  branch : ℕ → Forest → Forest → Forest

-- What of a list passes a test.
abbrev pub passing : (ℕ → Bool) → List ℕ → List ℕ
passing test [] = []
passing test (x ∷ xs) = let rest = passing test xs in if test x then x ∷ rest else rest

-- `n` numbers from `i` on.
abbrev pub numbers_from : ℕ → ℕ → List ℕ
numbers_from i zero = []
numbers_from i (suc n) = i ∷ numbers_from (i + 1) n

-- The block at `b` holds 31 entries of 136 bytes. One is taken when its byte 131 is 1.
abbrev pub entries_at : Memory → ℕ → List ℕ
entries_at m b = passing (λ ent. m (ent + 131) == 1) (map (λ j. b + j * 136) (numbers_from 0 31))

abbrev pub joined : List (List ℕ) → List ℕ
joined [] = []
joined (l ∷ ls) = l ++ joined ls

-- The taken entries of an inode's blocks, of those that are not null.
abbrev pub entries_of : Fs → ℕ → List ℕ
entries_of fs p =
    let node = fs.inode p in
    joined (map (entries_at fs.mem) (passing (λ b. not (b == 0)) node.blocks))

-- The inode of an entry stands in its first eight bytes.
abbrev pub target : Fs → ℕ → ℕ
target fs ent = load 8 ent fs.mem

-- The mode of a directory is 1.
abbrev pub is_dir : Fs → ℕ → Bool
is_dir fs p = let node = fs.inode p in node.mode == 1

-- The line of an entry: a bar for each level, the name, which stands behind the first eight bytes, an
-- arrow, and the inode.
abbrev pub line : ℕ → ℕ → Memory → List Piece
line level ent m =
    replicate level (text (b'|' ∷ b'-' ∷ b'-' ∷ b'-' ∷ []))
    ++ string_at (ent + 8)
      ∷ text (b' ' ∷ b'-' ∷ b'>' ∷ b' ' ∷ [])
      ∷ decimal (load 8 ent m)
      ∷ text (10 ∷ [])
      ∷ []

taken_entries-passing :
    (n i b : ℕ) (m : Memory)
    → taken_entries n (b + i * 136) m
      ≡ passing (λ ent. m (ent + 131) == 1) (map (λ j. b + j * 136) (numbers_from i n))
unfolding taken_entries
taken_entries-passing zero i b m = refl
taken_entries-passing (suc n) i b m =
    let next : b + i * 136 + 136 ≡ b + (i + 1) * 136 = omega arith in
    let rest = ap (λ a. taken_entries n a m) next ∙ taken_entries-passing n (i + 1) b m in
    elim (Bool-cases (m (b + i * 136 + 131) == 1)) [
      | inl taken ↦ rw taken (ap (λ l. (b + i * 136) ∷ l) rest)
      | inr not_taken ↦ rw not_taken rest
    ]

entries_in_blocks-joined :
    (bs : List ℕ) (m : Memory)
    → entries_in_blocks bs m ≡ joined (map (entries_at m) (passing (λ b. not (b == 0)) bs))
unfolding entries_in_blocks
entries_in_blocks-joined [] m = refl
entries_in_blocks-joined (b ∷ bs) m =
    let start : b ≡ b + 0 * 136 = omega arith in
    let first : taken_entries 31 b m ≡ entries_at m b =
      ap (λ a. taken_entries 31 a m) start ∙ taken_entries-passing 31 0 b m in
    elim (Bool-cases (b == 0)) [
      | inl null ↦ rw null (entries_in_blocks-joined bs m)
      | inr block ↦ rw block (
          ap (λ l. l ++ entries_in_blocks bs m) first
          ∙ ap (λ l. entries_at m b ++ l) (entries_in_blocks-joined bs m))
    ]

-- The forest is what stands behind these entries.
abbrev pub Grows : Fs → List ℕ → Forest → Type 0
Grows fs ents empty = ents ≡ []
Grows fs ents (leaf ent rest) =
    (ents' : List ℕ) × (ents ≡ ent ∷ ents')
    × (is_dir fs (target fs ent) ≡ false)
    × Grows fs ents' rest
Grows fs ents (branch ent inside rest) =
    (ents' : List ℕ) × (ents ≡ ent ∷ ents')
    × (is_dir fs (target fs ent) ≡ true)
    × Grows fs (entries_of fs (target fs ent)) inside
    × Grows fs ents' rest

-- The directories from the outermost to the innermost.
abbrev pub height : Forest → ℕ
height empty = 0
height (leaf ent rest) = height rest
height (branch ent inside rest) = max (height inside + 1) (height rest)

-- Every entry has a line, and the lines of its own entries stand behind it, one bar further right.
abbrev pub shown : Fs → ℕ → Forest → List Piece
shown fs level empty = []
shown fs level (leaf ent rest) = line level ent fs.mem ++ shown fs level rest
shown fs level (branch ent inside rest) =
    line level ent fs.mem ++ (shown fs (level + 1) inside ++ shown fs level rest)

tree_entries-shown :
    (f : Forest) (fuel level : ℕ) (ents : List ℕ) (fs : Fs)
    → height f < suc fuel
    → Grows fs ents f
    → tree_entries (λ p. print_fs_tree fuel p (level + 1) fs) level ents fs
      ≡ some (shown fs level f)
unfolding tree_entries print_fs_tree entry_line
tree_entries-shown empty fuel level ents fs low grows = rw grows refl
tree_entries-shown (leaf ent rest) fuel level ents fs low (ents', split, file, grows) =
    rw (split, file, tree_entries-shown rest fuel level ents' fs low grows) refl
tree_entries-shown (branch ent inside rest) zero level ents fs low grows =
    absurd (omega (arith, low))
tree_entries-shown (branch ent inside rest) (suc fuel) level ents fs low
      (ents', split, dir, below, grows) =
    rw
      (
        split,
        dir,
        entries_in_blocks-joined (fs.inode (target fs ent)).blocks fs.mem,
        tree_entries-shown inside fuel (level + 1) (entries_of fs (target fs ent)) fs
            (omega (arith, low)) below,
        tree_entries-shown rest (suc fuel) level ents' fs (omega (arith, low)) grows,
      )
      refl

-- With fuel for more directories than lie in each other, `tree` prints the tree under the current
-- directory in preorder: a line for every taken one of the 31 entries of each block that is not null,
-- in order, with a bar for each level, the name, an arrow and the inode; and behind the line of a
-- directory those of its own entries, one bar further right. The directories must form a tree: no
-- directory lies in itself.
pub tree_lem :
    (f : Forest) (fuel current_dir : ℕ) (fs : Fs)
    → height f < fuel
    → Grows fs (entries_of fs current_dir) f
    → tree fuel current_dir fs ≡ some (shown fs 0 f)
unfolding tree print_fs_tree
tree_lem f zero current_dir fs low grows = absurd (omega (arith, low))
tree_lem f (suc fuel) current_dir fs low grows =
    rw (entries_in_blocks-joined (fs.inode current_dir).blocks fs.mem)
      (tree_entries-shown f fuel 0 (entries_of fs current_dir) fs low grows)
