-- ===== src/Tree/Walk.antt =====
-- Where `spfs_btree_modify` and `spfs_btree_lookup` get to.
use spfs.Base.{
  ℕ, suc, ◌+◌, ◌*◌, ◌≤◌, ◌<◌, ◌≡◌, ◌≢◌, ◌⊎◌, refl, zero, inl, inr, arith, true, ltb, ltb-false,
  ==_true, Bool-cases, err, bug,
}
use spfs.Wire.{Bytes, Buffer, load32}
use spfs.Device.{Device, sb_bread}
use spfs.Inode.{code}
use spfs.Bnode.{entries, children, get_child, entry_id, entry_offset}
use spfs.Bnode.Search.{find_gte_misses, find_gte_clear, find_gte_empty, length-ok}
use spfs.Tree.{Callback, modify_from, visit_entry}

module _ {C : Type 0} (frame : Bytes) (cb : Callback C) (probes fuel : ℕ) (dev : Device)
    (root ino : ℕ) (closure : C) (shown : dev.readable (suc root) ≡ true)
    (small : dev.block_size ≤ 8192) where
  abbrev bh : Buffer
  bh = record { b_size = dev.block_size; b_data = dev.blocks (suc root) }

  -- From a root with 1 to 100 entries, in a block of at most 8192 bytes, the walk never visits an
  -- inode through an entry of the root, nor goes down to a child. It stops at an access outside
  -- the block, or visits what the bytes behind the entries name.
  pub modify_misses :
      (n : ℕ)
      → 4 ≤ dev.block_size
      → load32 bh.b_data 0 ≡ n
      → 0 < n
      → n ≤ 100
      → (modify_from frame cb (suc (suc (suc probes))) (suc fuel) dev (suc root) ino closure ≡ bug)
        ⊎ ((p : ℕ) × (entries + n * 16 ≤ p)
            × (modify_from frame cb (suc (suc (suc probes))) (suc fuel) dev (suc root) ino closure
                ≡ visit_entry frame cb dev (entry_offset bh p) closure))
  unfolding modify_from sb_bread
  modify_misses n header e live most =
      elim (find_gte_misses bh ino n live most small e header probes) [
        | inl out ↦ inl (rw (shown, out))
        | inr (p, found, id, _, behind) ↦ elim (Bool-cases (ltb dev.block_size (p + 16))) [
          | inl out ↦ inl (rw (shown, found, out))
          | inr in_block ↦
              inr (p, behind, rw (shown, found, in_block, ==_true (entry_id bh p) ino id))
        ]
      ]

  -- From a root that can be read, with 1 to 100 entries, in a block of 4 to 8192 bytes, with clear
  -- bytes behind them, as `bnode_make` leaves them, the walk of `spfs_btree_modify` for any
  -- inode number but 0, also that of an entry, stops at an access outside the block. The fuel is
  -- enough.
  pub modify_clear :
      (n : ℕ)
      → 4 ≤ dev.block_size
      → load32 bh.b_data 0 ≡ n
      → 0 < n
      → n ≤ 100
      → ((q : ℕ) → entries + n * 16 ≤ q → bh.b_data q ≡ 0)
      → ino ≢ 0
      → modify_from frame cb (suc (suc (suc probes))) (suc fuel) dev (suc root) ino closure ≡ bug
  unfolding modify_from sb_bread
  modify_clear n header e live most clear ne =
      rw (shown, find_gte_clear probes bh ino n live most header small e clear ne)

-- From a root without entries whose first child is 0, nothing is found: the result is 1.
pub modify_empty :
    {C : Type 0} (frame : Bytes) (cb : Callback C) (probes fuel : ℕ) (dev : Device) (root ino : ℕ)
    (closure : C)
    → root ≢ 0
    → dev.readable root ≡ true
    → children + 8 ≤ dev.block_size
    → load32 (dev.blocks root) 0 ≡ 0
    → load32 (dev.blocks root) children ≡ 0
    → modify_from frame cb probes (suc (suc fuel)) dev root ino closure ≡ err (code 1)
unfolding modify_from sb_bread get_child
modify_empty frame cb probes fuel dev zero ino closure ne shown room e child = absurd (ne refl)
modify_empty frame cb probes fuel dev (suc n) ino closure ne shown room e child =
    let bh : Buffer = record { b_size = dev.block_size; b_data = dev.blocks (suc n) } in
    rw (
      shown,
      find_gte_empty probes bh ino (omega arith) e,
      length-ok bh 0 (omega arith) e (omega arith),
      ltb-false dev.block_size 1612 room,
      child,
    )
