-- ===== src/Extent/Format.antt =====
-- sp.c: the header of an extent in its first block, and what the operations on extents share.
use spfs.Base.{
  ℕ, ◌+◌, ◌-◌, ◌*◌, ◌%◌, ◌^◌, not, ltb, ◌==◌, if◌then◌else◌, none, Res, ok, ◌>>=◌, or_return,
  return_if, bug_on,
}
use spfs.Wire.{Buffer, Made, or_stop, read_u32, read_sector, write_u32}
use spfs.Inode.{Failure, einval, code}

-- SPOOKY_FS_FILE_BLOCK_MAGIC
abbrev pub file_magic : ℕ
file_magic = 0xDEADBEEF

-- `MIN`
abbrev pub min : ℕ → ℕ → ℕ
min f s = if ltb s f then s else f

-- `struct spfs_file_extent`
pub record Header : Type 0 where
  pub next : ℕ
  pub capacity : ℕ
  pub length : ℕ

-- The magic is tested when every field is read.
unfoldable pub parse_file_extent : Buffer → ℕ → Res Failure (Header × ℕ)
parse_file_extent bh pos = do
  (magic, pos) ← or_return einval (read_u32 bh pos)
  (next, pos) ← or_return einval (read_sector bh pos)
  (capacity, pos) ← or_return einval (read_u32 bh pos)
  (length, pos) ← or_return einval (read_u32 bh pos)
  return_if (not (magic == file_magic)) einval
      (ok (record { next = next; capacity = capacity; length = length }, pos))

unfoldable pub make_file_extent : Buffer → ℕ → Header → Made Failure
unfolding or_stop
make_file_extent bh pos header = or_stop (code 1) bh pos (write_u32 bh pos file_magic) (λ bh pos.
    or_stop (code 1) bh pos (write_u32 bh pos header.next) (λ bh pos.
      or_stop (code 1) bh pos (write_u32 bh pos header.capacity) (λ bh pos.
        or_stop (code 1) bh pos (write_u32 bh pos header.length) (λ bh pos. ok (none, bh, pos)))))

abbrev pub sizeof_header : ℕ
sizeof_header = 16

unfoldable pub data_bytes : (block_size blocks : ℕ) → Res Failure ℕ
data_bytes block_size blocks =
    bug_on (blocks == 0) (ok ((blocks * block_size + 2 ^ 64 - sizeof_header) % 2 ^ 64))

-- `spfs_sb_remaining`
unfoldable pub remaining : Buffer → ℕ → Res Failure ℕ
remaining bh pos = bug_on (ltb bh.b_size pos) (ok (bh.b_size - pos))

-- A result of type `ssize_t`: a count, or a negative code.
pub data Ssize : Type 0 where
  count : ℕ → Ssize
  minus : Failure → Ssize
