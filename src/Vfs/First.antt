-- ===== src/Vfs/First.antt =====
-- The first file or directory of a file system without a tree.
use spfs.Base.{ℕ, suc, ◌+◌, ◌≤◌, ◌≡◌, refl, sym, true, ap, arith, some, ok, ==_true, ==_false}
use spfs.Wire.{Bytes}
use spfs.Device.{Device, put}
use spfs.FreeList.{FreeList}
use spfs.Super.{Super}
use spfs.Inode.{Inode, name_max}
use spfs.Insert.{Left}
use spfs.Insert.First.{IsCorrupted, insert_first, not_super}
use spfs.Dir.{Dir, s_isdir}
use spfs.Dir.First.{
  IsEmpty, counted, opened, add_child-opened, opened-IsDirectory, counted-IsOpenable,
}
use spfs.File.{s_isreg}
use spfs.Icache.{Live, Cache, Vfs, at, Kernel, keep, owned, setup_inode_fp, new_inode}
use spfs.Mount.Fresh.{treeless}
use spfs.Vfs.{Fuel, Name, Created, make_in, create, mkdir}
use spfs.Vfs.Steps.{named, called, make_in-steps}
use spfs.Icache.Numbers.{dir_not_file}
use spfs.Vfs.Ready.{granted, behind, IsReady, unnamed, unnamed_dir, numbered, IsCreated}

-- The file system with a new inode in memory.
abbrev with_new : Super → Device → FreeList → Cache → Live → Vfs
with_new super dev free cache child = keep (treeless (numbered super) dev free cache) super.id child

-- The directory once the inode is in the tree.
abbrev filled : Left → Live → Dir
filled left folder = record { dev = left.tree.dev; free = left.tree.free; parent = folder.inode }

module _ (kernel : Kernel) (super : Super) (dev : Device) (free : FreeList) (cache : Cache)
    (parent mode : ℕ) (folder live : Live)
    (is : IsReady kernel super dev free cache parent mode folder live) where
  filled-IsEmpty :
      (inode : Inode) (left : Left)
      → IsCorrupted dev inode (granted free) (granted (behind free)) (behind (behind free)) left
      → IsEmpty (filled left folder) (granted (behind (behind free)))
  filled-IsEmpty inode left after = record {
    openable = record {
      is_dir = is.is_dir;
      granted = ap granted after.free;
      page_ne = is.children;
      readable = rw (after.readable) (is.readable (granted (behind (behind free))));
      clear = λ q h.
          rw (after.others (granted (behind (behind free))) is.children is.children_apart)
            (is.clear q h);
      room = omega (arith, after.block_size, is.room);
    };
    start = is.empty;
  }

  new_inode-file :
      s_isreg mode ≡ true
      → new_inode kernel (treeless super dev free cache) (some folder.inode) mode
        ≡ ok (at super.id, with_new super dev free cache (unnamed kernel folder live mode))
  unfolding new_inode owned setup_inode_fp keep
  new_inode-file reg = rw (new_inode, is.new, is.keeps_mode, reg) refl

  new_inode-dir :
      s_isdir mode ≡ true
      → new_inode kernel (treeless super dev free cache) (some folder.inode) mode
        ≡ ok (at super.id, with_new super dev free cache (unnamed_dir kernel folder live mode))
  unfolding new_inode owned setup_inode_fp keep
  new_inode-dir dir = rw (new_inode, is.new, is.keeps_mode, dir_not_file mode dir, dir) refl

  -- The steps behind the guards, for a new inode whose number is the next one.
  make_in-first :
      (frame : Bytes) (fuel : Fuel) (blocks links : ℕ) (name : Name) (child : Live)
      → fuel.blocks ≡ suc blocks
      → name.len ≤ name_max
      → child.inode.i_ino ≡ super.id
      → new_inode kernel (treeless super dev free cache) (some folder.inode) mode
        ≡ ok (at super.id, with_new super dev free cache child)
      → (made : Created) × (folder' : Live) × (make_in kernel frame fuel links
            (treeless super dev free cache)
            parent
            name
            mode
          ≡ ok made)
        × (folder'.nlink ≡ folder.nlink + links)
        × IsCreated super dev (granted (behind free)) parent folder' (called child name) made
  unfolding keep put
  make_in-first frame fuel blocks links name child enough short number new =
      let inode = named child name in
      let page = granted (behind (behind free)) in
      let (left, done, after) =
        insert_first frame fuel.probes fuel.levels dev free inode is.page is.root is.root_apart
          (is.readable (granted free)) (is.readable 0) is.room (rw (number) is.number) in
      let empty = filled-IsEmpty inode left after in
      let dir = opened (counted (filled left folder)) page super.id in
      (
        _,
        record folder { inode = dir.parent; nlink = folder.nlink + links },
        make_in-steps kernel frame fuel (treeless super dev free cache)
            (with_new super dev free cache child) parent mode links super.id folder child name left
            dir short is.cached new (rw (==_true super.id super.id refl) refl) done after.succeeded
            is.apart (rw (==_false parent super.id is.apart) is.cached)
            (rw (enough) (add_child-opened blocks (filled left folder) page super.id empty)),
        refl,
        record {
          succeeded = refl;
          entered = refl;
          kept =
              rw (==_false super.id parent (λ e. is.apart (sym e)), ==_true super.id super.id refl)
                refl;
          held = rw (==_true parent parent refl) refl;
          listed =
              opened-IsDirectory (counted (filled left folder)) page super.id
                (counted-IsOpenable (filled left folder) page empty.openable) is.number;
          started = after.started;
          untouched = λ q.
              rw (==_false (granted (behind free)) page (λ e. is.children_root_apart (sym e)))
                (after.untouched q);
          readable = after.readable;
          block_size = after.block_size;
          unmountable =
              not_super dir.dev (rw (==_false 0 page (omega (arith, is.children))) after.node.one)
                (rw (after.readable) (is.readable 0));
        },
      )

  -- Where the first file of a file system is ready to be created, with a name of at most 256 bytes
  -- and the mode of a file, `spfs_create` succeeds and gives the inode to the dentry; the inode is
  -- in memory with its name, and the directory has its number, cut to 32 bits, as the only child.
  -- But the super block of the device is then refused with -EINVAL, and the tree starts at the
  -- second block that was granted, which was not written.
  pub create-first :
      (frame : Bytes) (fuel : Fuel) (blocks : ℕ) (name : Name)
      → fuel.blocks ≡ suc blocks
      → s_isreg mode ≡ true
      → name.len ≤ name_max
      → (made : Created) × (folder' : Live) × (create kernel frame fuel
            (treeless super dev free cache)
            parent
            name
            mode
          ≡ ok made)
        × IsCreated super dev
            (granted (behind free))
            parent
            folder'
            (called (unnamed kernel folder live mode) name)
            made
  unfolding create
  create-first frame fuel blocks name enough reg short =
      let (made, folder', done, linked, after) =
        make_in-first frame fuel blocks 0 name (unnamed kernel folder live mode) enough short
          is.keeps_ino (new_inode-file reg) in
      (made, folder', rw (create, reg) done, after)

  -- Where the first inode of a file system is ready to be made, with a name of at most 256 bytes
  -- and the mode of a directory, `spfs_mkdir` succeeds and gives the inode to the dentry, with a
  -- link more for it and for its parent; the inode is in memory with its name, and the parent has
  -- its number, cut to 32 bits, as the only child. But the super block of the device is then
  -- refused with -EINVAL, and the tree starts at the second block that was granted, which was not
  -- written.
  pub mkdir-first :
      (frame : Bytes) (fuel : Fuel) (blocks : ℕ) (name : Name)
      → fuel.blocks ≡ suc blocks
      → s_isdir mode ≡ true
      → name.len ≤ name_max
      → (made : Created) × (folder' : Live) × (mkdir kernel frame fuel
            (treeless super dev free cache)
            parent
            name
            mode
          ≡ ok made)
        × (folder'.nlink ≡ folder.nlink + 1)
        × IsCreated super dev
            (granted (behind free))
            parent
            folder'
            (called (unnamed_dir kernel folder live mode) name)
            made
  unfolding mkdir
  mkdir-first frame fuel blocks name enough dir short =
      let (made, folder', done, linked, after) =
        make_in-first frame fuel blocks 1 name (unnamed_dir kernel folder live mode) enough short
          is.keeps_ino (new_inode-dir dir) in
      (made, folder', rw (mkdir, dir) done, linked, after)
