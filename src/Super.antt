-- ===== src/Super.antt =====
-- sp.c, the super block: `spfs_read_super_block` and `spfs_super_block_init`.
pub mod Laws
use spfs.Base.{ℕ, Bool, not, ltb, ◌==◌, Res, ok, err, ◌>>=◌, or_return, or_null, return_if}
use spfs.Wire.{Buffer, read_u32, read_ino, read_sector}
use spfs.Device.{Device, sb_bread}

-- SPOOKY_FS_SUPER_MAGIC and SPOOKY_FS_INITIAL_BLOCK_SIZE
abbrev pub super_magic : ℕ
super_magic = 0xDEADBEEF

abbrev pub initial_block_size : ℕ
initial_block_size = 512

-- `-EINVAL` and `-EIO`.
pub data Failure : Type 0 where
  einval eio : Failure

-- The fields of `struct spfs_super_block` that are on the disk. Its locks, its tree and its free
-- list are made when the file system is mounted.
pub record Super : Type 0 where
  pub magic : ℕ
  pub version : ℕ
  pub block_size : ℕ
  pub id : ℕ
  pub root_id : ℕ
  pub btree_offset : ℕ
  pub free_list_offset : ℕ

unfoldable pub read_super_block : Buffer → Res Failure Super
read_super_block bh = do
  (magic, pos) ← or_return einval (read_u32 bh 0)
  (version, pos) ← or_return einval (read_u32 bh pos)
  (block_size, pos) ← or_return einval (read_u32 bh pos)
  (id, pos) ← or_return einval (read_ino bh pos)
  (root_id, pos) ← or_return einval (read_ino bh pos)
  (btree_offset, pos) ← or_return einval (read_sector bh pos)
  (free_list_offset, pos) ← or_return einval (read_sector bh pos)
  ok (record {
    magic = magic;
    version = version;
    block_size = block_size;
    id = id;
    root_id = root_id;
    btree_offset = btree_offset;
    free_list_offset = free_list_offset;
  })

unfoldable pub super_block_init : Device → ℕ → Res Failure Super
unfolding read_super_block
super_block_init dev start = do
  bh ← or_null eio (sb_bread dev start)
  super ← read_super_block bh
  return_if (not (super.magic == super_magic)) einval
      (return_if (ltb super.block_size initial_block_size) einval (ok super))
