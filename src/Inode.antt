-- ===== src/Inode.antt =====
-- shared.h and btree.c: `struct spfs_inode`, and the block that an inode is kept in.
pub mod Roundtrip
use spfs.Base.{ℕ, ◌==◌, not, Res, ok, err, ◌>>=◌, or_return, return_if}
use spfs.Wire.{
  Bytes, Buffer, read_u16, read_u32, read_ino, read_sector, read_str, write_u16, write_u32,
  write_str,
}

-- SPOOKY_FS_BTREE_MAGIC and SPOOKY_FS_NAME_MAX
abbrev pub btree_magic : ℕ
btree_magic = 0xDEADBEEF

abbrev pub name_max : ℕ
name_max = 256

-- The codes of the driver: `-EIO`, `-EINVAL`, `-ENOMEM`, `-EINTR`, `-ENAMETOOLONG`, `-ENOENT`, and
-- the positive codes that some of its functions return.
pub data Failure : Type 0 where
  eio einval enomem eintr enametoolong enoent : Failure
  code : ℕ → Failure

pub record Time : Type 0 where
  pub tv_sec : ℕ
  pub tv_nsec : ℕ

-- The fields of `struct spfs_inode` and of the `struct inode` in it that the driver stores. Group
-- and user are the numbers that `i_gid_read` and `i_uid_read` give.
pub record Inode : Type 0 where
  pub i_ino : ℕ
  pub i_mode : ℕ
  pub gid : ℕ
  pub uid : ℕ
  pub i_atime : Time
  pub i_mtime : Time
  pub i_ctime : Time
  pub capacity : ℕ
  pub start : ℕ
  pub name : Bytes

abbrev seconds : ℕ → Time
seconds s = record { tv_sec = s; tv_nsec = 0 }

-- `spfs_inode_parse`: the magic number is tested when every field is read.
unfoldable pub parse : Buffer → Res Failure Inode
parse bh = do
  (magic, pos) ← or_return eio (read_u32 bh 0)
  (i_ino, pos) ← or_return eio (read_ino bh pos)
  (i_mode, pos) ← or_return eio (read_u16 bh pos)
  (gid, pos) ← or_return eio (read_u32 bh pos)
  (uid, pos) ← or_return eio (read_u32 bh pos)
  (atime, pos) ← or_return eio (read_u32 bh pos)
  (mtime, pos) ← or_return eio (read_u32 bh pos)
  (ctime, pos) ← or_return eio (read_u32 bh pos)
  (capacity, pos) ← or_return eio (read_u32 bh pos)
  (start, pos) ← or_return eio (read_sector bh pos)
  (name, pos) ← or_return eio (read_str bh pos name_max)
  return_if (not (magic == btree_magic)) einval (
      ok (record {
        i_ino = i_ino;
        i_mode = i_mode;
        gid = gid;
        uid = uid;
        i_atime = seconds atime;
        i_mtime = seconds mtime;
        i_ctime = seconds ctime;
        capacity = capacity;
        start = start;
        name = name;
      }))

-- `spfs_inode_make`: a failure leaves the block as it was written so far. `frame` is the memory at
-- the address of the parameter of `spfs_sb_write_str`.
unfoldable pub make : (frame : Bytes) → Buffer → Inode → Res (Failure × Buffer) Buffer
make frame bh inode = do
  (bh, pos) ← or_return (eio, bh) (write_u32 bh 0 btree_magic)
  (bh, pos) ← or_return (eio, bh) (write_u32 bh pos inode.i_ino)
  (bh, pos) ← or_return (eio, bh) (write_u16 bh pos inode.i_mode)
  (bh, pos) ← or_return (eio, bh) (write_u32 bh pos inode.gid)
  (bh, pos) ← or_return (eio, bh) (write_u32 bh pos inode.uid)
  (bh, pos) ← or_return (eio, bh) (write_u32 bh pos inode.i_atime.tv_sec)
  (bh, pos) ← or_return (eio, bh) (write_u32 bh pos inode.i_mtime.tv_sec)
  (bh, pos) ← or_return (eio, bh) (write_u32 bh pos inode.i_ctime.tv_sec)
  (bh, pos) ← or_return (eio, bh) (write_u32 bh pos inode.capacity)
  (bh, pos) ← or_return (eio, bh) (write_u32 bh pos inode.start)
  (bh, pos) ← or_return (eio, bh) (write_str frame bh pos inode.name name_max)
  ok bh
