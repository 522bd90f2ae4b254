-- ===== src/Tree.antt =====
-- btree.c, the tree of nodes on the device: `btree_visit_entry`, `spfs_btree_modify` and
-- `spfs_btree_lookup`. The tree's mutex is held by the callers over each whole operation.
pub mod Walk
pub mod Visit
pub mod Lookup
use spfs.Base.{
  ℕ, zero, suc, ◌+◌, Bool, true, false, ltb, ◌==◌, if◌then◌else◌, Option, none, some, Res, ok, err,
  bug, out_of_fuel, ◌>>=◌, or_null, return_if, bug_on,
}
use spfs.Wire.{Bytes, Buffer}
use spfs.Device.{Device, sb_bread, put}
use spfs.Inode.{Inode, Failure, eio, einval, code, parse}
use spfs.Inode
use spfs.Bnode.{entry_id, entry_offset, inside, index_of, length, get_child, find_gte}

-- A callback on an inode, with the closure that it updates. `true` means that the inode changed.
abbrev pub Callback : Type 0 → Type 0
Callback C = C → Inode → Bool × C × Inode

-- The block after `spfs_inode_make`, whose result is not looked at.
abbrev pub made : Res (Failure × Buffer) Buffer → Buffer → Buffer
made (ok bh) old = bh
made (err (e, bh)) old = bh
made bug old = old
made out_of_fuel old = old

module _ {C : Type 0} (frame : Bytes) (cb : Callback C) where
  -- `btree_visit_entry`, once the inode is read: the callback runs, and what it changed is written.
  unfoldable pub visit_inode : Device → ℕ → Buffer → C → Inode → Device × C
  visit_inode dev offset bh closure cur =
      let (dirty, closure', cur') = cb closure cur in
      if dirty
      then (put dev offset (made (Inode.make frame bh cur') bh), closure')
      else (dev, closure')

  unfoldable pub visit_entry : Device → ℕ → C → Res Failure (Device × C)
  unfolding visit_inode
  visit_entry dev offset closure = return_if (offset == 0) (code 1) (do
    bh ← or_null (code 10) (sb_bread dev offset)
    cur ← parse bh
    ok (visit_inode dev offset bh closure cur))

  -- `spfs_btree_modify` from the node at `offset`, with fuel for the nodes on the way and fuel
  -- `probes` for the search in each node.
  unfoldable pub modify_from :
      (probes fuel : ℕ) → Device → (offset ino : ℕ) → C → Res Failure (Device × C)
  modify_from probes zero dev offset ino closure = out_of_fuel
  modify_from probes (suc fuel) dev zero ino closure = err (code 1)
  modify_from probes (suc fuel) dev (suc offset) ino closure = do
    bh ← or_null eio (sb_bread dev (suc offset))
    found ← find_gte probes bh ino
    elim found [
      | some gte ↦ inside bh gte 16 bug (
          if entry_id bh gte == ino then visit_entry dev (entry_offset bh gte) closure else (do
            child ← get_child bh (index_of gte)
            modify_from probes fuel dev child ino closure))
      | none ↦ (do
        n ← length bh
        child ← get_child bh n
        modify_from probes fuel dev child ino closure)
    ]

-- The closure of `spfs_btree_lookup` is the inode that it copies to.
abbrev pub lookup_cb : Callback (Option Inode)
lookup_cb dest cur = (false, some cur, cur)

unfoldable pub lookup :
    Bytes → (probes fuel : ℕ) → Device → (start ino : ℕ) → Res Failure (Device × Option Inode)
unfolding modify_from
lookup frame probes fuel dev start ino = modify_from frame lookup_cb probes fuel dev start ino none
