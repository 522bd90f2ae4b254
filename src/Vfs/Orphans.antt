-- ===== src/Vfs/Orphans.antt =====
-- Directories with a child that is on no disk and not in memory, as a file is after a mount.
use spfs.Base.{
  ◌%◌, ◌^◌, ℕ, suc, ◌+◌, ◌*◌, ◌<◌, ◌≡◌, refl, true, none, some, ok, bug, List, ◌∷◌, ◌≤◌, leb-false,
  Bool,
}
use spfs.Wire.{Bytes}
use spfs.Device.{Device}
use spfs.FreeList.{FreeList}
use spfs.Super.{Super}
use spfs.Inode.{Inode}
use spfs.Dir.{visit}
use spfs.Dir.Entries.{length}
use spfs.Dir.Visits.{IsDirectory, visit_all, for_all_children-visits}
use spfs.Icache.{Live, Cache, Kernel, fresh}
use spfs.Mount.Fresh.{treeless, inode_by_id-treeless}
use spfs.Vfs.{
  Fuel, DirContext, Entry, Visitor, visit_child, visit_children, by_name_cb, lookup, iterate_cb,
  iterate,
}

module _ (kernel : Kernel) (frame : Bytes) (fuel : Fuel) (super : Super) (dev : Device)
    (free : FreeList) (cache : Cache) (levels : ℕ) (some_levels : fuel.levels ≡ suc levels) (n : ℕ)
    (live : Live) (new : kernel.iget_locked cache n ≡ fresh live) where
  visit_child-orphan :
      {C : Type 0} (visitor : Visitor kernel frame fuel C) (closure : C)
      → visit_child kernel frame fuel visitor (ok (treeless super dev free cache, closure)) n
        ≡ (bug, Bool.false)
  unfolding visit_child
  visit_child-orphan visitor closure =
      rw
        (
          visit_child,
          some_levels,
          inode_by_id-treeless kernel frame fuel.probes levels super dev free cache n live new,
        )
        refl

  visit_children-orphan :
      {C : Type 0} (visitor : Visitor kernel frame fuel C) (parent : Inode) (closure : C)
      (blocks : ℕ) (ns : List ℕ)
      → IsDirectory (record { dev = dev; free = free; parent = parent }) (n ∷ ns)
      → fuel.blocks ≡ suc (suc blocks)
      → length (n ∷ ns) * 2 ≤ fuel.words
      → visit_children kernel frame fuel visitor (treeless super dev free cache) parent closure
        ≡ bug
  unfolding visit_children visit_all visit length
  visit_children-orphan visitor parent closure blocks ns is enough words =
      rw
        (
          visit_children,
          enough,
          for_all_children-visits some (visit_child kernel frame fuel visitor) fuel.words blocks
              (record { dev = dev; free = free; parent = parent }) (n ∷ ns)
              (ok (treeless super dev free cache, closure)) is words,
          visit_child-orphan visitor closure,
        )
        refl

  -- In a file system without a tree, a directory in memory with its children in one block, the
  -- first of which is not in memory: `spfs_lookup` of any name is an access through NULL, and so is
  -- `spfs_iterate` from a position before the end, once the dots are emitted. The fuel is enough.
  pub orphan_crashes :
      (dir_emit : DirContext → Entry → Bool) (dots : DirContext → DirContext × Bool) (parent : ℕ)
      (folder : Live) (blocks : ℕ) (ns : List ℕ) (name : Bytes) (ctx : DirContext)
      → cache parent ≡ some folder
      → IsDirectory (record { dev = dev; free = free; parent = folder.inode }) (n ∷ ns)
      → fuel.blocks ≡ suc (suc blocks)
      → length (n ∷ ns) * 2 ≤ fuel.words
      → (dots ctx).1 ≡ true
      → (dots ctx).0.pos < (folder.inode.capacity + 2) % 2 ^ 32
      → (lookup kernel frame fuel (treeless super dev free cache) parent name ≡ bug)
        × (iterate kernel frame fuel dir_emit dots (treeless super dev free cache) parent ctx ≡ bug)
  unfolding lookup iterate
  orphan_crashes dir_emit dots parent folder blocks ns name ctx cached is enough words room before =
      (
        rw (
          cached,
          visit_children-orphan (by_name_cb name) folder.inode none blocks ns is enough words,
        ),
        rw (
          cached,
          room,
          leb-false ((folder.inode.capacity + 2) % 2 ^ 32) (dots ctx).0.pos before,
          visit_children-orphan (iterate_cb kernel frame fuel dir_emit) folder.inode
              ((dots ctx).0, 2) blocks ns is enough words,
        ),
      )
