-- ===== src/Fs/Directory/Search.antt =====
-- The search of a block of a directory.
use almorina_os.Prelude.{
  ℕ, ◌+◌, ◌<◌, ◌≡◌, inl, inr, refl, Option, none, some, List, [], ◌∷◌, length, Bool-cases,
  if◌then◌else◌,
}
use almorina_os.Cstring.{Memory}
use almorina_os.Cstring.Bytes.{IsString}
use almorina_os.Cstring.Search.{AreBytes}
use almorina_os.Cstring.Same.{same, strcmp-same}
use almorina_os.Fs.Directory.{entry_size, entry_name, entry_inode, find_entry}

-- The names of the entries from `ent` on, as strings shorter than the fuel.
abbrev pub Named : ℕ → Memory → ℕ → List (List ℕ) → Type 0
Named fuel m ent [] = Unit {0}
Named fuel m ent (n ∷ ns) =
    IsString m (entry_name ent) n
    × AreBytes n
    × (length n < fuel)
    × Named fuel m (ent + entry_size) ns

-- The entry of the first of the names that is `s`.
abbrev pub entry_of : ℕ → List ℕ → List (List ℕ) → Option ℕ
entry_of ent s [] = none
entry_of ent s (n ∷ ns) =
    let rest = entry_of (ent + entry_size) s ns in if same n s then some ent else rest

-- With enough fuel `find_entry` finds the inode of the first entry that has the name.
find_entry-entry_of :
    (ns : List (List ℕ)) (s : List ℕ) (fuel ent filename : ℕ) (m : Memory)
    → Named fuel m ent ns
    → AreBytes s
    → IsString m filename s
    → find_entry fuel (length ns) ent filename m
      ≡ some (elim (entry_of ent s ns) [ none ↦ none | some e ↦ some (entry_inode e m) ])
unfolding find_entry
find_entry-entry_of [] s fuel ent filename m named bytes is = refl
find_entry-entry_of (n ∷ ns) s fuel ent filename m (here, small, enough, named) bytes is =
    let (r, runs, test) =
      strcmp-same n s fuel (entry_name ent) filename m enough small bytes here is in
    elim (Bool-cases (same n s)) [
      | inl eq ↦ rw (runs, test, eq) refl
      | inr ne ↦
          rw (runs, test, ne)
            (find_entry-entry_of ns s fuel (ent + entry_size) filename m named bytes is)
    ]
