-- ===== src/Vfs/Ready.antt =====
-- A file system without a tree that is ready for its first inode, and what it becomes.
use spfs.Base.{ℕ, ◌+◌, ◌%◌, ◌^◌, ◌≤◌, ◌≡◌, ◌≢◌, true, none, some, err, [], ◌∷◌}
use spfs.Device.{Device}
use spfs.FreeList.{FreeList, free_alloc}
use spfs.Super
use spfs.Super.{Super, super_block_init}
use spfs.Dir.{s_isdir}
use spfs.Dir.Visits.{IsDirectory}
use spfs.Icache.{Live, Cache, Ops, fresh, Kernel}
use spfs.Vfs.{Created}

-- The block that the list of free blocks grants, and the list behind it.
abbrev pub granted : FreeList → ℕ
granted free = (free_alloc free 1).1

abbrev pub behind : FreeList → FreeList
behind free = (free_alloc free 1).0

-- What the first inode needs: the number `parent` is an empty directory in memory, the kernel gives
-- a new inode for the next number and keeps the mode and the number in it, there are three blocks
-- to allocate, for the inode, for the root of the tree and for the directory, and the last one is
-- clear behind a header.
pub record IsReady (kernel : Kernel) (super : Super) (dev : Device) (free : FreeList)
    (cache : Cache) (parent mode : ℕ) (folder live : Live) : Type 0 where
  pub cached : cache parent ≡ some folder
  pub is_dir : s_isdir folder.inode.i_mode ≡ true
  pub empty : folder.inode.start ≡ 0
  pub apart : parent ≢ super.id
  pub new : kernel.iget_locked cache super.id ≡ fresh live
  pub keeps_mode : (kernel.inode_init_owner live.inode folder.inode mode).i_mode ≡ mode
  pub keeps_ino : (kernel.inode_init_owner live.inode folder.inode mode).i_ino ≡ super.id
  pub number : super.id % 2 ^ 32 ≢ 0
  pub page : granted free ≢ 0
  pub root : granted (behind free) ≢ 0
  pub root_apart : granted (behind free) ≢ granted free
  pub children : granted (behind (behind free)) ≢ 0
  pub children_apart : granted (behind (behind free)) ≢ granted free
  pub children_root_apart : granted (behind (behind free)) ≢ granted (behind free)
  pub readable : (n : ℕ) → dev.readable n ≡ true
  pub clear : (q : ℕ) → 12 ≤ q → dev.blocks (granted (behind (behind free))) q ≡ 0
  pub room : 1620 ≤ dev.block_size

-- A new file and a new directory, before they get their names.
abbrev pub unnamed : Kernel → Live → Live → ℕ → Live
unnamed kernel folder live mode = record live {
  inode = record (kernel.inode_init_owner live.inode folder.inode mode) {
    i_ctime = kernel.current_time;
    i_atime = kernel.current_time;
    i_mtime = kernel.current_time;
  };
  ops = some Ops.file_ops;
}

abbrev pub unnamed_dir : Kernel → Live → Live → ℕ → Live
unnamed_dir kernel folder live mode = record (unnamed kernel folder live mode) {
  ops = some Ops.dir_ops;
  nlink = live.nlink + 1;
}

-- The next number is for another inode.
abbrev pub numbered : Super → Super
numbered super = record super { id = (super.id + 1) % 2 ^ 64 }

-- What `spfs_create` and `spfs_mkdir` leave behind on the device `dev`: the inode `made.d_inode`,
-- in memory with its name, is the only child of the directory. But the super block of the device is
-- refused with -EINVAL, and the tree starts at block `root`, whose bytes are those of `dev`.
pub record IsCreated (super : Super) (dev : Device) (root parent : ℕ) (folder child : Live)
    (made : Created) : Type 0 where
  pub succeeded : made.res ≡ none
  pub entered : made.d_inode ≡ some super.id
  pub kept : made.vfs.cache super.id ≡ some child
  pub held : made.vfs.cache parent ≡ some folder
  pub listed :
      IsDirectory
        (record { dev = made.vfs.tree.dev; free = made.vfs.tree.free; parent = folder.inode })
        (super.id % 2 ^ 32 ∷ [])
  pub started : made.vfs.tree.start ≡ root
  pub untouched : (q : ℕ) → made.vfs.tree.dev.blocks root q ≡ dev.blocks root q
  pub readable : made.vfs.tree.dev.readable ≡ dev.readable
  pub block_size : made.vfs.tree.dev.block_size ≡ dev.block_size
  pub unmountable :
      super_block_init (record made.vfs.tree.dev { block_size = 512 }) 0 ≡ err Super.Failure.einval
