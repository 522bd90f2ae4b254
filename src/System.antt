-- ===== src/System.antt =====
-- sp.c: the tables `spfs_inode_ops`, `spfs_file_ops`, `spfs_dir_ops` and `spfs_super_ops`: what the
-- kernel can call on a file system that is mounted, one operation after the other.
pub mod Typed
pub mod Visits
pub mod Makes
pub mod Sound
pub mod Kinds
pub mod Untouched
pub mod Blocks
pub mod Session
pub mod Locks
use spfs.Base.{ℕ, ◌≡◌, Bool, true, false, ◌==◌, if◌then◌else◌, Option, none, some, ok}
use spfs.Wire.{Bytes}
use spfs.Inode.{Inode, Failure}
use spfs.Insert.{Tree}
use spfs.Extent.{Ssize}
use spfs.File
use spfs.File.{OpenFile, read, write}
use spfs.Icache.{Live, Ops, Vfs, Kernel, keep}
use spfs.Vfs.{Fuel, Name, Created, Entry, DirContext, create, mkdir, lookup, iterate, write_inode}

-- A mounted file system with what the kernel keeps of each inode beside it: `i_size`, and whether
-- `inode->lock` is held. Of an inode that is not in memory they are those of the memory it gets.
pub record System : Type 0 where
  pub vfs : Vfs
  pub sizes : ℕ → ℕ
  pub held : ℕ → Bool

-- A function with another value at one number.
abbrev pub set {ℓ} : {A : Type ℓ} → (ℕ → A) → ℕ → A → ℕ → A
set f n a k = if k == n then a else f k

-- The inode `n` as an open file.
abbrev pub opened : System → ℕ → Live → OpenFile
opened s n live = record {
  tree = s.vfs.tree;
  block_size = s.vfs.super.block_size;
  inode = live.inode;
  i_size = s.sizes n;
  locked = s.held n;
}

-- The system behind an operation on the open file.
unfoldable pub left_by : System → ℕ → Live → OpenFile → System
left_by s n live file = record {
  vfs = keep (record s.vfs { tree = file.tree }) n (record live { inode = file.inode });
  sizes = set s.sizes n file.i_size;
  held = set s.held n file.locked;
}

-- The inode `n` leaves the memory. The next one with its number has the lock and the size that the
-- memory holds which it gets.
unfoldable pub forgotten : System → ℕ → (was : Bool) → (size : ℕ) → System
forgotten s n was size = record {
  vfs = record s.vfs { cache = set s.vfs.cache n none };
  sizes = set s.sizes n size;
  held = set s.held n was;
}

-- `is_open` says of which inodes the kernel has a reference, and so keeps them in memory.
module _ (kernel : Kernel) (frame : Bytes) (is_open : ℕ → Bool) where
  -- One call that returns. `spfs_read` and `spfs_write` are called through the table of files only.
  pub data Step (s : System) : System → Type 0 where
    creates :
        (fuel : Fuel) (parent : ℕ) (name : Name) (mode : ℕ) (made : Created)
        → create kernel frame fuel s.vfs parent name mode ≡ ok made
        → Step s (record s { vfs = made.vfs })
    makes_dir :
        (fuel : Fuel) (parent : ℕ) (name : Name) (mode : ℕ) (made : Created)
        → mkdir kernel frame fuel s.vfs parent name mode ≡ ok made
        → Step s (record s { vfs = made.vfs })
    looks_up :
        (fuel : Fuel) (parent : ℕ) (name : Bytes) (inode : Option ℕ) (vfs : Vfs)
        → lookup kernel frame fuel s.vfs parent name ≡ ok (vfs, inode)
        → Step s (record s { vfs = vfs })
    iterates :
        (fuel : Fuel) (dir_emit : DirContext → Entry → Bool) (dots : DirContext → DirContext × Bool)
        (parent : ℕ) (ctx ctx' : DirContext) (res : Option Failure) (vfs : Vfs)
        → iterate kernel frame fuel dir_emit dots s.vfs parent ctx ≡ ok (res, vfs, ctx')
        → Step s (record s { vfs = vfs })
    reads :
        (blocks fuel n : ℕ) (live : Live) (user user' : Bytes) (at len pos pos' : ℕ) (res : Ssize)
        (file : OpenFile)
        → s.vfs.cache n ≡ some live
        → live.ops ≡ some Ops.file_ops
        → read blocks fuel (opened s n live) user at len pos ≡ ok (res, pos', user', file)
        → Step s (left_by s n live file)
    writes :
        (fuel : File.Fuel) (signal : Bool) (n : ℕ) (live : Live) (user : Bytes)
        (at len pos pos' : ℕ) (res : Ssize) (file : OpenFile)
        → s.vfs.cache n ≡ some live
        → live.ops ≡ some Ops.file_ops
        → write frame fuel signal (opened s n live) user at len pos ≡ ok (res, pos', file)
        → Step s (left_by s n live file)
    stores :
        (fuel : Fuel) (n : ℕ) (live : Live) (res : Option Failure) (tree : Tree)
        → s.vfs.cache n ≡ some live
        → write_inode frame fuel s.vfs.tree live ≡ ok (res, tree)
        → Step s (record s { vfs = record s.vfs { tree = tree } })
    forgets : (n : ℕ) (was : Bool) (size : ℕ) → is_open n ≡ false → Step s (forgotten s n was size)

  -- Any number of calls.
  pub data Reach (s : System) : System → Type 0 where
    here : Reach s s
    next : {s' s'' : System} → Reach s s' → Step s' s'' → Reach s s''
