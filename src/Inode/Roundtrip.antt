-- ===== src/Inode/Roundtrip.antt =====
-- What is read back of an inode that was written.
use spfs.Base.{ℕ, ◌+◌, ◌%◌, ◌^◌, ◌≤◌, ◌<◌, ◌≡◌, refl, arith, ok}
use spfs.Wire.{
  Bytes, Buffer, load16, load32, store16, store32, copy, write_u16, write_u32, write_str,
}
use spfs.Wire.Laws.{read_u16-ok, read_u32-ok, read_ino-ok, read_sector-ok, read_str-ok}
use spfs.Inode.{Inode, btree_magic, parse, make}

-- The block that holds an inode: its fields one behind the other.
unfoldable pub encoded : Bytes → Bytes → Inode → Bytes
encoded frame m inode =
    let m = store16 (store32 (store32 m 0 btree_magic) 4 inode.i_ino) 8 inode.i_mode in
    let m = store32 (store32 m 10 inode.gid) 14 inode.uid in
    let m = store32 (store32 m 18 inode.i_atime.tv_sec) 22 inode.i_mtime.tv_sec in
    let m = store32 (store32 m 26 inode.i_ctime.tv_sec) 30 inode.capacity in
    copy (store32 m 34 inode.start) 38 frame 256

pub make-encoded :
    (frame : Bytes) (bh : Buffer) (inode : Inode)
    → 294 ≤ bh.b_size
    → make frame bh inode ≡ ok (record bh { b_data = encoded frame bh.b_data inode })
unfolding make encoded write_u16 write_u32 write_str
make-encoded frame bh inode h = ground arith

-- The inode that the bytes of a block stand for.
unfoldable pub decoded : Bytes → Inode
decoded m = record {
  i_ino = load32 m 4;
  i_mode = load16 m 8;
  gid = load32 m 10;
  uid = load32 m 14;
  i_atime = record { tv_sec = load32 m 18; tv_nsec = 0 };
  i_mtime = record { tv_sec = load32 m 22; tv_nsec = 0 };
  i_ctime = record { tv_sec = load32 m 26; tv_nsec = 0 };
  capacity = load32 m 30;
  start = load32 m 34;
  name = λ k. m (38 + k);
}

pub parse-decoded :
    (bh : Buffer)
    → 294 ≤ bh.b_size
    → load32 bh.b_data 0 ≡ btree_magic
    → parse bh ≡ ok (decoded bh.b_data)
unfolding parse decoded
parse-decoded bh h e = rw (
  read_u32-ok bh 0 (omega arith),
  read_ino-ok bh 4 (omega arith),
  read_u16-ok bh 8 (omega arith),
  read_u32-ok bh 10 (omega arith),
  read_u32-ok bh 14 (omega arith),
  read_u32-ok bh 18 (omega arith),
  read_u32-ok bh 22 (omega arith),
  read_u32-ok bh 26 (omega arith),
  read_u32-ok bh 30 (omega arith),
  read_sector-ok bh 34 (omega arith),
  read_str-ok bh 38 256 (omega arith),
  e,
)

-- `out` is `inode` as its block keeps it: integers cut to their fields, times without their
-- nanoseconds, and for the name the bytes of `frame`.
pub record IsStored (frame : Bytes) (inode out : Inode) : Type 0 where
  pub i_ino : out.i_ino ≡ inode.i_ino % 2 ^ 32
  pub i_mode : out.i_mode ≡ inode.i_mode % 2 ^ 16
  pub gid : out.gid ≡ inode.gid % 2 ^ 32
  pub uid : out.uid ≡ inode.uid % 2 ^ 32
  pub atime : out.i_atime ≡ record { tv_sec = inode.i_atime.tv_sec % 2 ^ 32; tv_nsec = 0 }
  pub mtime : out.i_mtime ≡ record { tv_sec = inode.i_mtime.tv_sec % 2 ^ 32; tv_nsec = 0 }
  pub ctime : out.i_ctime ≡ record { tv_sec = inode.i_ctime.tv_sec % 2 ^ 32; tv_nsec = 0 }
  pub capacity : out.capacity ≡ inode.capacity % 2 ^ 32
  pub start : out.start ≡ inode.start % 2 ^ 32
  pub name : (k : ℕ) → k < 256 → out.name k ≡ frame k

pub encoded-IsStored :
    (frame m : Bytes) (inode : Inode) → IsStored frame inode (decoded (encoded frame m inode))
unfolding encoded decoded load16 load32 store16 store32 copy
encoded-IsStored frame m inode = record {
  i_ino = omega arith;
  i_mode = omega arith;
  gid = omega arith;
  uid = omega arith;
  atime = ground arith;
  mtime = ground arith;
  ctime = ground arith;
  capacity = omega arith;
  start = omega arith;
  name = λ k h. ground arith;
}

pub encoded-magic :
    (frame m : Bytes) (inode : Inode) → load32 (encoded frame m inode) 0 ≡ btree_magic
unfolding encoded load32 store32 store16 copy
encoded-magic frame m inode = omega arith

encoded_ne : (frame m : Bytes) (inode : Inode) (q : ℕ) → 294 ≤ q → encoded frame m inode q ≡ m q
unfolding encoded store32 store16 copy
encoded_ne frame m inode q h = ground arith

-- In a block of at least 294 bytes an inode can be written, and the block is read as that inode
-- with its integers cut to their fields. The name that is read is not the name of the inode: it
-- is the memory at the address of the parameter of `spfs_sb_write_str`. The bytes from 294 on stay.
pub parse-make :
    (frame : Bytes) (bh : Buffer) (inode : Inode)
    → 294 ≤ bh.b_size
    → (bh' : Buffer) × (out : Inode) × (make frame bh inode ≡ ok bh')
      × (parse bh' ≡ ok out)
      × IsStored frame inode out
      × (bh'.b_size ≡ bh.b_size)
      × ((q : ℕ) → 294 ≤ q → bh'.b_data q ≡ bh.b_data q)
parse-make frame bh inode h = (
  record bh { b_data = encoded frame bh.b_data inode },
  decoded (encoded frame bh.b_data inode),
  make-encoded frame bh inode h,
  parse-decoded (record bh { b_data = encoded frame bh.b_data inode }) h
      (encoded-magic frame bh.b_data inode),
  encoded-IsStored frame bh.b_data inode,
  refl,
  encoded_ne frame bh.b_data inode,
)
