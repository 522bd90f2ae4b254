-- ===== src/Vfs/Taken.antt =====
-- What `spfs_create` and `spfs_mkdir` do where `spfs_new_inode` fails.
use spfs.Base.{ℕ, ◌≤◌, ◌≡◌, ◌≢◌, true, some, bug, inl, inr, ltb-false}
use spfs.Wire.{Bytes}
use spfs.Inode.{name_max}
use spfs.Dir.{s_isdir}
use spfs.File.{s_isreg}
use spfs.Icache.{Live, Vfs, Kernel, fresh, new_inode}
use spfs.Icache.Numbers.{Iget-cases}
use spfs.Vfs.{Fuel, Name, create, mkdir, make_in, generic_create}

module _ (kernel : Kernel) (frame : Bytes) (fuel : Fuel) (vfs : Vfs) (parent : ℕ) (name : Name)
    (folder : Live) (cached : vfs.cache parent ≡ some folder)
    (refused : (live : Live) → kernel.iget_locked vfs.cache vfs.super.id ≢ fresh live)
    (short : name.len ≤ name_max) where
  -- The write of the name goes through the error pointer.
  make_in_taken : (links mode : ℕ) → make_in kernel frame fuel links vfs parent name mode ≡ bug
  unfolding make_in generic_create new_inode
  make_in_taken links mode = elim (Iget-cases (kernel.iget_locked vfs.cache vfs.super.id)) [
    | inl e ↦ rw (make_in, cached, generic_create, ltb-false name_max name.len short, new_inode, e)
    | inr (inl (live, e)) ↦
        rw (make_in, cached, generic_create, ltb-false name_max name.len short, new_inode, e)
    | inr (inr (live, e)) ↦ absurd (refused live e)
  ]

  -- Where the kernel gives no new inode for the next number, since it has no memory or has an inode
  -- with that number already, any `spfs_create` of a file and any `spfs_mkdir`, in a directory in
  -- memory and with a name of at most 256 bytes, is a write through an error pointer.
  pub create-mkdir_taken :
      (mode mode' : ℕ)
      → s_isreg mode ≡ true
      → s_isdir mode' ≡ true
      → (create kernel frame fuel vfs parent name mode ≡ bug)
        × (mkdir kernel frame fuel vfs parent name mode' ≡ bug)
  unfolding create mkdir
  create-mkdir_taken mode mode' reg dir =
      (rw (create, reg) (make_in_taken 0 mode), rw (mkdir, dir) (make_in_taken 1 mode'))
