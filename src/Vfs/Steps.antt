-- ===== src/Vfs/Steps.antt =====
-- `spfs_create` when each of its steps succeeds.
use spfs.Base.{ℕ, ◌+◌, ◌≤◌, ◌≡◌, ◌≢◌, refl, none, some, ok, ==_false, ltb-false}
use spfs.Wire.{Bytes, copy}
use spfs.Inode.{Inode, name_max}
use spfs.Insert.{Left, insert}
use spfs.Dir.{Dir, add_child}
use spfs.Icache.{Live, Vfs, at, Kernel, keep, new_inode}
use spfs.Vfs.{Fuel, Name, insert_named, generic_create, add_to, adopt, make_in}

abbrev pub named : Live → Name → Inode
named live name = record live.inode { name = copy (λ _. 0) 0 name.text name.len }

abbrev pub called : Live → Name → Live
called live name = record live { inode = named live name }

insert_named-inserted :
    (frame : Bytes) (fuel : Fuel) (vfs : Vfs) (n : ℕ) (live : Live) (name : Name) (left : Left)
    → insert frame fuel.probes fuel.levels vfs.tree (named live name) ≡ ok left
    → left.res ≡ none
    → insert_named frame fuel vfs n live name
      ≡ ok (record {
        res = none;
        vfs = record (keep vfs n (record live { inode = named live name })) { tree = left.tree };
        d_inode = some n;
      })
unfolding insert_named keep
insert_named-inserted frame fuel vfs n live name left done good = rw (done, good) refl

-- The state behind `spfs_add_child` on the directory `folder` with the number `parent`.
abbrev pub added_to : Vfs → (parent : ℕ) → Live → Dir → Vfs
added_to vfs parent folder dir =
    keep (record vfs { tree = record vfs.tree { dev = dir.dev; free = dir.free } }) parent
      (record folder { inode = dir.parent })

adopt-added :
    (fuel : Fuel) (parent links n : ℕ) (vfs : Vfs) (folder : Live) (dir : Dir)
    → vfs.cache parent ≡ some folder
    → add_child fuel.blocks
        (record { dev = vfs.tree.dev; free = vfs.tree.free; parent = folder.inode })
        n
      ≡ ok (none, dir)
    → adopt fuel parent links (record { res = none; vfs = vfs; d_inode = some n })
      ≡ ok (record {
        res = none;
        vfs = added_to vfs parent (record folder { nlink = folder.nlink + links }) dir;
        d_inode = some n;
      })
unfolding adopt add_to keep
adopt-added fuel parent links n vfs folder dir cached added = rw (cached, added) refl

-- `spfs_create` and `spfs_mkdir` behind their guards, when each of the steps succeeds.
pub make_in-steps :
    (kernel : Kernel) (frame : Bytes) (fuel : Fuel) (vfs vfs' : Vfs) (parent mode links n : ℕ)
    (folder live : Live) (name : Name) (left : Left) (dir : Dir)
    → name.len ≤ name_max
    → vfs.cache parent ≡ some folder
    → new_inode kernel vfs (some folder.inode) mode ≡ ok (at n, vfs')
    → vfs'.cache n ≡ some live
    → insert frame fuel.probes fuel.levels vfs'.tree (named live name) ≡ ok left
    → left.res ≡ none
    → parent ≢ n
    → vfs'.cache parent ≡ some folder
    → add_child fuel.blocks
        (record { dev = left.tree.dev; free = left.tree.free; parent = folder.inode })
        n
      ≡ ok (none, dir)
    → make_in kernel frame fuel links vfs parent name mode
      ≡ ok (record {
        res = none;
        vfs =
            added_to
              (record (keep vfs' n (record live { inode = named live name })) { tree = left.tree })
              parent
              (record folder { nlink = folder.nlink + links })
              dir;
        d_inode = some n;
      })
unfolding make_in generic_create keep
make_in-steps kernel frame fuel vfs vfs' parent mode links n folder live name left dir short cached
      new kept inserted good apart cached' added =
    rw
      (
        make_in,
        cached,
        generic_create,
        new,
        kept,
        insert_named-inserted frame fuel vfs' n live name left inserted good,
        ltb-false name_max name.len short,
      )
      (adopt-added fuel parent links n
        (record (keep vfs' n (record live { inode = named live name })) { tree = left.tree }) folder
        dir (rw (==_false parent n apart, cached')) added)
