-- ===== src/System/Sound.antt =====
-- What every call of the tables keeps: each inode in memory has the operations of its mode, and the
-- free list changes by allocations only.
use spfs.Base.{
  arith, ℕ, ◌==◌, ◌≡◌, refl, ap, sym, Bool-cases, inl, inr, some, Returns, Returns-ok, Bool,
}
use mathlib.Core.Option.{none-ne-some}
use spfs.Wire.{Bytes}
use spfs.Insert.{Tree}
use spfs.File.{OpenFile}
use spfs.File.Reports.{write-i_mode, read_keeps}
use spfs.File.Taken.{Second, write-Second, read_tree}
use spfs.Icache.{Live, Kernel, keep}
use mathlib.Core.Path.{subst}
use spfs.FreeList.{FreeList}
use spfs.FreeList.Served.{Served}
use spfs.System.{
  System, opened, left_by, forgotten, Step, Reach, creates, makes_dir, looks_up, iterates, reads,
  writes, stores, forgets, here, next,
}
use spfs.System.Typed.{AllTyped, IsSound, keep-IsSound, inode_by_id-IsSound}
use spfs.System.Makes.{Made, IsTyped-same, create-IsSound, mkdir-IsSound}
use spfs.System.Visits.{lookup_keeps, iterate_keeps}
use spfs.Vfs.{Fuel, write_inode}

module _ (free : FreeList) where
  left_by-IsSound :
      (s : System) (n : ℕ) (live : Live) (file : OpenFile)
      → IsSound free s.vfs
      → s.vfs.cache n ≡ some live
      → file.inode.i_mode ≡ live.inode.i_mode
      → Served free file.tree.free
      → IsSound free (left_by s n live file).vfs
  unfolding left_by keep
  left_by-IsSound s n live file (all, taken) there mode more =
      keep-IsSound free (record s.vfs { tree = file.tree }) n (record live { inode = file.inode })
        (all, more)
        (IsTyped-same live (record live { inode = file.inode }) refl mode (all n live there))

  forgotten-AllTyped :
      (s : System) (n : ℕ) (was : Bool) (size : ℕ)
      → AllTyped s.vfs.cache
      → AllTyped (forgotten s n was size).vfs.cache
  unfolding forgotten
  forgotten-AllTyped s n was size all k live e = elim (Bool-cases (k == n)) [
    | inl gone ↦ absurd (none-ne-some live (rw gone at e))
    | inr other ↦ all k live (rw other at e)
  ]

  write_inode-Served :
      (frame : Bytes) (fuel : Fuel) (tree : Tree) (live : Live)
      → Served free tree.free
      → Returns (λ out. Served free out.1.free) (write_inode frame fuel tree live)
  unfolding write_inode
  write_inode-Served frame fuel tree live taken = ground arith

  module _ (kernel : Kernel) (frame : Bytes) (is_open : ℕ → Bool) where
    pub Step-IsSound :
        (s s' : System) → Step kernel frame is_open s s' → IsSound free s.vfs → IsSound free s'.vfs
    unfolding forgotten
    Step-IsSound s s' (creates fuel parent name mode made h) sound =
        Returns-ok (Made free) (create-IsSound free kernel frame fuel s.vfs parent name mode sound)
          h
    Step-IsSound s s' (makes_dir fuel parent name mode made h) sound =
        Returns-ok (Made free) (mkdir-IsSound free kernel frame fuel s.vfs parent name mode sound) h
    Step-IsSound s s' (looks_up fuel parent name inode vfs h) sound =
        Returns-ok (λ out. IsSound free out.0)
          (lookup_keeps (IsSound free) kernel frame fuel
            (inode_by_id-IsSound free kernel frame fuel.probes fuel.levels) s.vfs parent sound name)
          h
    Step-IsSound s s' (iterates fuel dir_emit dots parent ctx ctx' res vfs h) sound =
        Returns-ok (λ out. IsSound free out.1)
          (iterate_keeps (IsSound free) kernel frame fuel
            (inode_by_id-IsSound free kernel frame fuel.probes fuel.levels) s.vfs parent sound
            dir_emit dots ctx)
          h
    Step-IsSound s s' (reads blocks fuel n live user user' buf len pos pos' res file there ops h)
          sound =
        left_by-IsSound s n live file sound there
          (ap (λ i. i.i_mode)
            (read_keeps blocks fuel (opened s n live) user buf len pos res pos' user' file h).0)
          (subst (λ tree. Served free tree.free)
            (sym (
              Returns-ok (λ out. out.3.tree ≡ s.vfs.tree)
                (read_tree blocks fuel (opened s n live) user buf len pos) h))
            sound.1)
    Step-IsSound s s' (writes fuel signal n live user buf len pos pos' res file there ops h) sound =
        left_by-IsSound s n live file sound there
          (write-i_mode frame user fuel signal (opened s n live) buf len pos res pos' file h)
          (Returns-ok (Second free)
            (write-Second free frame fuel signal (opened s n live) user buf len pos sound.1) h)
    Step-IsSound s s' (stores fuel n live res tree there h) sound = (
      sound.0,
      Returns-ok (λ out. Served free out.1.free)
          (write_inode-Served frame fuel s.vfs.tree live sound.1) h,
    )
    Step-IsSound s s' (forgets n was size closed) sound =
        (forgotten-AllTyped s n was size sound.0, sound.1)

    pub Reach-IsSound :
        (s s' : System) → Reach kernel frame is_open s s' → IsSound free s.vfs → IsSound free s'.vfs
    Reach-IsSound s s' here sound = sound
    Reach-IsSound s s' (next before step) sound =
        Step-IsSound _ s' step (Reach-IsSound s _ before sound)
