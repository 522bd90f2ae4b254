-- ===== src/Icache.antt =====
-- sp.c: inodes in memory, `spfs_setup_inode_fp`, `spfs_new_inode` and `spfs_inode_by_id`. A pointer
-- to an inode is its number: the kernel keeps one inode in memory for a number.
pub mod Numbers
use spfs.Base.{
  ℕ, ◌+◌, ◌%◌, ◌^◌, ◌==◌, if◌then◌else◌, Option, none, some, Res, ok, err, bug, out_of_fuel, ◌>>=◌,
}
use spfs.Wire.{Bytes}
use spfs.Super.{Super}
use spfs.Inode.{Inode, Time, Failure, enomem}
use spfs.Tree.{lookup}
use spfs.Insert.{Tree}
use spfs.Dir.{s_isdir}
use spfs.File.{s_isreg}

-- `i_fop`, by the table that it points to.
pub data Ops : Type 0 where
  file_ops dir_ops : Ops

-- An inode in memory, with its operations and the links to it (`i_nlink`).
pub record Live : Type 0 where
  pub inode : Inode
  pub ops : Option Ops
  pub nlink : ℕ

abbrev pub Cache : Type 0
Cache = ℕ → Option Live

-- `s_fs_info` with the tree, the free list and the device of its tree, and the inodes in memory.
pub record Vfs : Type 0 where
  pub super : Super
  pub tree : Tree
  pub cache : Cache

-- `struct spfs_inode *` as a result: an error pointer, NULL, or the inode with a number.
pub data Pointer : Type 0 where
  error : Failure → Pointer
  null : Pointer
  at : ℕ → Pointer

-- What `iget_locked` gives: NULL, an inode of the cache, or one that is new (I_NEW).
pub data Iget : Type 0 where
  failed : Iget
  found : Live → Iget
  fresh : Live → Iget

-- The functions of the kernel, `iget_locked`, `inode_init_owner` and `current_time`, and what the
-- stack of `spfs_btree_lookup` holds where its `struct spfs_inode` will be.
pub record Kernel : Type 0 where
  pub iget_locked : Cache → ℕ → Iget
  pub inode_init_owner : Inode → (parent : Inode) → (mode : ℕ) → Inode
  pub current_time : Time
  pub uninitialised : Live

-- The cache with an inode in it.
unfoldable pub keep : Vfs → ℕ → Live → Vfs
keep vfs n live = record vfs { cache = λ k. if k == n then some live else vfs.cache k }

-- A mode that is neither a file's nor a directory's is a BUG.
unfoldable pub setup_inode_fp : Live → Res Failure Live
unfolding s_isreg s_isdir
setup_inode_fp live =
    if s_isreg live.inode.i_mode
    then ok (record live { ops = some Ops.file_ops })
    else if s_isdir live.inode.i_mode
    then ok (record live { ops = some Ops.dir_ops; nlink = live.nlink + 1 })
    else bug

-- The owner and the mode of a new inode.
unfoldable pub owned : Kernel → Option Inode → (mode : ℕ) → Inode → Inode
owned kernel none mode inode = record inode { i_mode = mode }
owned kernel (some parent) mode inode = kernel.inode_init_owner inode parent mode

unfoldable pub new_inode :
    Kernel → Vfs → (parent : Option Inode) → (mode : ℕ) → Res Failure (Pointer × Vfs)
unfolding owned
new_inode kernel vfs parent mode =
    let needle = vfs.super.id in
    let vfs' : Vfs = record vfs { super = record vfs.super { id = (needle + 1) % 2 ^ 64 } } in
    elim (kernel.iget_locked vfs.cache needle) [
      | failed ↦ ok (error enomem, vfs')
      | found live ↦ ok (error enomem, vfs')
      | fresh live ↦ (do
        let now = kernel.current_time
        live ← setup_inode_fp (record live {
          inode = record (owned kernel parent mode live.inode) {
            i_ctime = now;
            i_atime = now;
            i_mtime = now;
          };
        })
        ok (at needle, keep vfs' needle live))
    ]

-- What is not in memory is looked up in the tree, and the struct of the lookup, which has the
-- fields of the disk in it, is copied over the new inode.
unfoldable pub inode_by_id :
    Kernel → (frame : Bytes) → (probes fuel : ℕ) → Vfs → (needle : ℕ) → Res Failure (Pointer × Vfs)
unfolding lookup
inode_by_id kernel frame probes fuel vfs needle = elim (kernel.iget_locked vfs.cache needle) [
  | failed ↦ ok (error enomem, vfs)
  | found live ↦ ok (at needle, vfs)
  | fresh _ ↦ elim (lookup frame probes fuel vfs.tree.dev vfs.tree.start needle) [
    | err e ↦ ok (null, vfs)
    | bug ↦ bug
    | out_of_fuel ↦ out_of_fuel
    | ok (dev, none) ↦ ok (null, record vfs { tree = record vfs.tree { dev = dev } })
    | ok (dev, some inode) ↦ (do
      live ← setup_inode_fp (record kernel.uninitialised { inode = inode })
      ok (at needle, keep (record vfs { tree = record vfs.tree { dev = dev } }) needle live))
  ]
]
