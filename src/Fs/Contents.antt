-- ===== src/Fs/Contents.antt =====
-- The contents of a file, src/c-code/fs.c: what `fs_inode_write_data` puts into the blocks of an
-- inode and `fs_inode_get_data` gets from them. Loops over the fifteen blocks recur on the blocks
-- left; the fuel is that of the string functions, and `none` means that it ran out. A size is an
-- `int` that is not negative.
pub mod RoundTrip
mod Tests
use almorina_os.Prelude.{
  ℕ, zero, suc, ◌+◌, ◌-◌, Option, none, some, List, get_or, set, ltb, ◌==◌, if◌then◌else◌,
}
use almorina_os.Prelude.Words.{u16, u32, add64}
use almorina_os.Prelude.Store.{update}
use almorina_os.Prelude.Fault.{◌>>=◌}
use almorina_os.Cstring.{Memory, memset, strncpy, strlen}
use almorina_os.Heap.{Heap, malloc}
use almorina_os.Fs.{Fs, Inode, block_size, num_of_blocks_in_inode, fs_create_block}

-- `inode->blocks[i]`
abbrev pub block_at : ℕ → ℕ → Fs → ℕ
block_at inode i fs = get_or (fs.inode inode).blocks i 0

-- A block is allocated where there is none.
unfoldable pub ensure_block : ℕ → ℕ → Fs → Fs
ensure_block inode i fs =
    if block_at inode i fs == 0
    then (let (p, fs') = fs_create_block fs in
        let node = fs'.inode inode in
        record fs' {
          inode = update fs'.inode inode (record node { blocks = set node.blocks i p });
        })
    else fs

-- One block is cleared and takes as much of the data as it holds; the data are read from their start
-- for each block.
unfoldable pub write_block : ℕ → ℕ → ℕ → ℕ → ℕ → Fs → Option Fs
unfolding ensure_block
write_block fuel inode i text size fs =
    let fs' = ensure_block inode i fs in
    let p = block_at inode i fs' in
    let copy_size = u16 (if ltb size block_size then size else block_size) in
    strncpy fuel p text copy_size (memset p 0 block_size fs'.mem) >>= λ m.
    some (record fs' { mem = m })

-- The size that is left when the loop ends, and the file system.
unfoldable pub write_blocks : ℕ → ℕ → ℕ → ℕ → ℕ → ℕ → Fs → Option (ℕ × Fs)
write_blocks fuel zero inode i text size fs = some (size, fs)
write_blocks fuel (suc n) inode i text size fs = write_block fuel inode i text size fs >>= λ fs'.
    let rest = write_blocks fuel n inode (i + 1) text (size - block_size) fs' in
    if ltb size block_size then some (size, fs') else rest

unfoldable pub fs_inode_write_data : ℕ → ℕ → ℕ → Fs → Option Fs
fs_inode_write_data fuel inode text fs = strlen fuel text fs.mem >>= λ size.
    write_blocks fuel num_of_blocks_in_inode inode 0 text size fs >>= λ r.
    let node = r.1.inode inode in
    let fs' = r.1 in
    some (record fs' { inode = update fs'.inode inode (record node { size = r.0 }) })

-- The first loop: the lengths of the texts in the blocks from `i` on.
unfoldable pub sum_blocks : ℕ → ℕ → ℕ → ℕ → ℕ → Fs → Option ℕ
sum_blocks fuel zero inode i n fs = some n
sum_blocks fuel (suc k) inode i n fs =
    let skipped = sum_blocks fuel k inode (i + 1) n fs in
    if block_at inode i fs == 0
    then skipped
    else (strlen fuel (block_at inode i fs) fs.mem >>= λ len.
        sum_blocks fuel k inode (i + 1) (u32 (n + len)) fs)

-- The second loop: every block is copied to the start of the buffer.
unfoldable pub copy_blocks : ℕ → ℕ → ℕ → ℕ → ℕ → Fs → Option Fs
copy_blocks fuel zero inode i buffer fs = some fs
copy_blocks fuel (suc k) inode i buffer fs =
    let skipped = copy_blocks fuel k inode (i + 1) buffer fs in
    let block = block_at inode i fs in
    if block == 0
    then skipped
    else (strlen fuel block fs.mem >>= λ len. strncpy fuel buffer block len fs.mem >>= λ m.
        copy_blocks fuel k inode (i + 1) buffer (record fs { mem = m }))

-- The buffer, the file system and the heap; the result of `malloc` is not tested.
unfoldable pub fs_inode_get_data : ℕ → ℕ → Fs → Heap → Option (ℕ × Fs × Heap)
fs_inode_get_data fuel inode fs h = sum_blocks fuel num_of_blocks_in_inode inode 0 0 fs >>= λ size.
    malloc fuel (size + 1) h >>= λ r.
    copy_blocks fuel num_of_blocks_in_inode inode 0 r.0 fs >>= λ fs'.
    some (r.0, record fs' { mem = update fs'.mem (r.0 + size) 0 }, r.1)
