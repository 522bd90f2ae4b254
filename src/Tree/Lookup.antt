-- ===== src/Tree/Lookup.antt =====
-- What `spfs_btree_lookup` makes of the device.
use spfs.Base.{
  ◌+◌, ltb, or_null, return_if, ℕ, zero, suc, ◌≡◌, refl, Bool, true, false, Res, none, Option, bug,
  ◌==◌, Returns, Returns-after, Returns-if, Returns-option,
}
use spfs.Wire.{Bytes}
use spfs.Device.{Device, sb_bread}
use spfs.Inode.{Inode, Failure, code, eio, parse}
use spfs.Bnode.{entry_id, entry_offset, index_of, length, get_child, find_gte}
use spfs.Tree.{visit_inode, visit_entry, lookup_cb, modify_from, lookup}

-- The device beside a result is as before.
abbrev pub Leaves : Device → Device × Option Inode → Type 0
Leaves dev (dev', dest) = dev' ≡ dev

Leaves-return_if :
    (dev : Device) (test : Bool) (e : Failure) (r : Res Failure (Device × Option Inode))
    → Returns (Leaves dev) r
    → Returns (Leaves dev) (return_if test e r)
Leaves-return_if dev true e r h = tt
Leaves-return_if dev false e r h = h

module _ (frame : Bytes) where
  visit_entry-Leaves :
      (dev : Device) (offset : ℕ) (dest : Option Inode)
      → Returns (Leaves dev) (visit_entry frame lookup_cb dev offset dest)
  unfolding visit_entry visit_inode
  visit_entry-Leaves dev offset dest = Leaves-return_if dev (offset == 0) (code 1) _ (
      Returns-after (Leaves dev) (or_null (code 10) (sb_bread dev offset)) _
        (λ bh. Returns-after (Leaves dev) (parse bh) _ (λ cur. refl)))

  modify_from-Leaves :
      (probes fuel : ℕ) (dev : Device) (offset ino : ℕ) (dest : Option Inode)
      → Returns (Leaves dev) (modify_from frame lookup_cb probes fuel dev offset ino dest)
  unfolding modify_from
  modify_from-Leaves probes zero dev offset ino dest = tt
  modify_from-Leaves probes (suc fuel) dev zero ino dest = tt
  modify_from-Leaves probes (suc fuel) dev (suc offset) ino dest =
      Returns-after (Leaves dev) (or_null eio (sb_bread dev (suc offset))) _ (λ bh.
        Returns-after (Leaves dev) (find_gte probes bh ino) _ (λ found.
          Returns-option (Leaves dev) found _ _
            (Returns-after (Leaves dev) (length bh) _ (λ n.
              Returns-after (Leaves dev) (get_child bh n) _
                (λ child. modify_from-Leaves probes fuel dev child ino dest)))
            (λ gte. Returns-if (Leaves dev) (ltb bh.b_size (gte + 16)) bug _ tt (
              Returns-if (Leaves dev) (entry_id bh gte == ino) _ _
                (visit_entry-Leaves dev (entry_offset bh gte) dest)
                (Returns-after (Leaves dev) (get_child bh (index_of gte)) _
                  (λ child. modify_from-Leaves probes fuel dev child ino dest))))))

  pub lookup-Leaves :
      (probes fuel : ℕ) (dev : Device) (start ino : ℕ)
      → Returns (Leaves dev) (lookup frame probes fuel dev start ino)
  unfolding lookup
  lookup-Leaves probes fuel dev start ino = modify_from-Leaves probes fuel dev start ino none
