-- ===== src/Mount.antt =====
-- sp.c: `spfs_fill_super_block`, the mount of a device, with `spfs_set_blocksize` and
-- `spfs_btree_init`, and `spfs_put_super`.
pub mod Fresh
pub mod Session
use spfs.Base.{
  ℕ, Bool, not, ◌&&◌, ◌==◌, if◌then◌else◌, Option, none, some, Res, ok, err, bug, out_of_fuel,
  ◌>>=◌, return_if,
}
use spfs.Wire.{Bytes}
use spfs.Device.{Device}
use spfs.FreeList.{FreeList, free_init}
use spfs.FreeList
use spfs.Super.{Super, initial_block_size, super_block_init}
use spfs.Super
use spfs.Inode.{Inode, Failure, einval, eio, enomem, code}
use spfs.Insert.{Tree}
use spfs.Icache.{Live, Cache, Vfs, Pointer, error, null, at, Kernel, keep, new_inode, inode_by_id}

-- The same codes of the other components, as those of the driver.
abbrev pub of_super : {A : Type 0} → Res Super.Failure A → Res Failure A
of_super (ok a) = ok a
of_super (err Super.Failure.einval) = err einval
of_super (err Super.Failure.eio) = err eio
of_super bug = bug
of_super out_of_fuel = out_of_fuel

abbrev pub of_free_list : {A : Type 0} → Res FreeList.Failure A → Res Failure A
of_free_list (ok a) = ok a
of_free_list (err FreeList.Failure.einval) = err einval
of_free_list (err FreeList.Failure.failed) = err (code 1)
of_free_list bug = bug
of_free_list out_of_fuel = out_of_fuel

-- What a mount asks of the kernel, besides inodes: memory for `s_fs_info` and for a node of the
-- free list, `sb_set_blocksize` (whether it takes the size), and the user and group.
pub record Host : Type 0 where
  pub kernel : Kernel
  pub kzalloc_info : Bool
  pub kzalloc_node : FreeList → Bool
  pub sb_set_blocksize : ℕ → Bool
  pub current_fsuid : ℕ
  pub current_fsgid : ℕ

-- A device before it is mounted: whether it is a block device, and how it is seen in blocks of a
-- size.
pub record Disk : Type 0 where
  pub is_bdev : Bool
  pub in_blocks : ℕ → Device

-- `spfs_set_blocksize`: the device as it is seen from then on.
unfoldable pub set_blocksize : Host → Disk → Device → (block_size : ℕ) → Res Failure Device
set_blocksize host disk dev block_size =
    if disk.is_bdev
    then return_if (not (host.sb_set_blocksize block_size)) einval (ok (disk.in_blocks block_size))
    else ok dev

-- `spfs_btree_init`
unfoldable pub btree_init : Device → FreeList → (start : ℕ) → Tree
btree_init dev free start = record { dev = dev; free = free; start = start }

-- S_IFDIR | S_IRWXU | S_IRWXG | S_IRWXO
abbrev pub root_mode : ℕ
root_mode = 0x41FF

-- The root inode: the one that the super block names, or a new one, whose number the super block
-- in memory takes.
unfoldable pub find_root :
    Kernel → (frame : Bytes) → (probes levels : ℕ) → Vfs → Res Failure (ℕ × Vfs)
find_root kernel frame probes levels vfs = do
  (root, vfs) ← inode_by_id kernel frame probes levels vfs vfs.super.root_id
  elim root [
    | at n ↦ ok (n, vfs)
    | error e ↦ err e
    | null ↦ (do
      (root, vfs) ← new_inode kernel vfs none root_mode
      elim root [
        | at n ↦ ok (n, record vfs { super = record vfs.super { root_id = n } })
        | error e ↦ err e
        | null ↦ bug
      ])
  ]

-- `root->i_inode.i_uid` and `i_gid` are those of the caller.
unfoldable pub own_root : Host → ℕ × Vfs → Res Failure (ℕ × Vfs)
own_root host (root, vfs) = elim (vfs.cache root) [
  | none ↦ bug
  | some live ↦ ok (
    root,
    keep vfs root (record live {
      inode = record live.inode { uid = host.current_fsuid; gid = host.current_fsgid };
    }),
  )
]

-- `spfs_fill_super_block` on a device that is seen as `dev` before: the root inode and the state of
-- the file system. `cache` is what is in memory, `fuel` is for the chain of free-list blocks.
unfoldable pub fill_super_block :
    Host
    → (frame : Bytes) → (probes levels fuel : ℕ) → Disk
    → Device
    → Cache
    → Res Failure (ℕ × Vfs)
unfolding set_blocksize btree_init
fill_super_block host frame probes levels fuel disk dev cache =
    return_if (not host.kzalloc_info) enomem (do
      dev ← set_blocksize host disk dev initial_block_size
      super ← of_super (super_block_init dev 0)
      dev ← set_blocksize host disk dev super.block_size
      free ← of_free_list (free_init host.kzalloc_node fuel dev super.free_list_offset)
      root ←
          find_root host.kernel frame probes levels
            (record { super = super; tree = btree_init dev free super.btree_offset; cache = cache })
      own_root host root)

-- `spfs_put_super`: `s_fs_info` is freed and reset, if there is one.
unfoldable pub put_super : (s_fs_info : Option Vfs) → Option Vfs
put_super none = none
put_super (some vfs) = none
