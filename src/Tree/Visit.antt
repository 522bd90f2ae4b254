-- ===== src/Tree/Visit.antt =====
-- What `btree_visit_entry` does to the block of an inode.
use spfs.Base.{ℕ, ◌≤◌, ◌≡◌, ◌≢◌, refl, true, ==_true, ==_false, none, some, ok}
use spfs.Wire.{Bytes, Buffer, load32}
use spfs.Device.{Device, sb_bread, put}
use spfs.Inode.{Inode, btree_magic}
use spfs.Inode.Roundtrip.{
  IsStored, decoded, parse-decoded, make-encoded, encoded, encoded-IsStored, encoded-magic,
}
use spfs.Tree.{Callback, lookup_cb, visit_entry}

-- `btree_visit_entry` visits a block and then visits it again for a lookup, where the number of the
-- block is not 0, it can be read, has at least 294 bytes and starts with the magic number of an
-- inode. If the callback of the first visit says that it changed the inode, the second one gives
-- its version, with the integers cut to their fields and the name replaced as `spfs_inode_make`
-- replaces it; no other block changes.
pub visit-visit :
    {C : Type 0} (frame : Bytes) (cb : Callback C) (dev : Device) (offset : ℕ) (closure : C)
    → offset ≢ 0
    → dev.readable offset ≡ true
    → 294 ≤ dev.block_size
    → load32 (dev.blocks offset) 0 ≡ btree_magic
    → (cb closure (decoded (dev.blocks offset))).0 ≡ true
    → (dev' : Device) × (out : Inode) × (visit_entry frame cb dev offset closure
        ≡ ok (dev', (cb closure (decoded (dev.blocks offset))).1))
      × (visit_entry frame lookup_cb dev' offset none ≡ ok (dev', some out))
      × IsStored frame (cb closure (decoded (dev.blocks offset))).2 out
      × ((n : ℕ) → n ≢ offset → dev'.blocks n ≡ dev.blocks n)
unfolding visit_entry sb_bread put
visit-visit frame cb dev offset closure ne shown room magic dirty =
    let cur = (cb closure (decoded (dev.blocks offset))).2 in
    let bh : Buffer = record { b_size = dev.block_size; b_data = dev.blocks offset } in
    let bh' : Buffer = record {
      b_size = dev.block_size;
      b_data = encoded frame (dev.blocks offset) cur;
    } in
    (
      put dev offset bh',
      decoded bh'.b_data,
      rw (
        ==_false offset 0 ne,
        shown,
        parse-decoded bh room magic,
        dirty,
        make-encoded frame bh cur room,
      ),
      rw (
        ==_false offset 0 ne,
        shown,
        ==_true offset offset refl,
        parse-decoded bh' room (encoded-magic frame (dev.blocks offset) cur),
      ),
      encoded-IsStored frame (dev.blocks offset) cur,
      λ n apart. rw (==_false n offset apart),
    )
