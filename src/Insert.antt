-- ===== src/Insert.antt =====
-- btree.c, insertion: `btree_insert`, `btree_fixup` with the split of a full node, and
-- `spfs_btree_insert` with the new root. A node is the number of its block; its bytes are those of
-- the block, so that every pointer to a node in the C code sees every write to it.
mod State
mod Split
pub mod First
pub mod Full
pub mod Moves
pub mod Fixup
pub mod Taken
unfoldable pub use State.*
unfoldable pub use Split.*
use spfs.Base.{
  ℕ, zero, suc, ◌+◌, ◌-◌, ◌*◌, ◌/◌, ◌%◌, ◌^◌, Bool, true, false, not, ltb, leb, ◌==◌, if◌then◌else◌,
  Option, none, some, Res, ok, err, bug, out_of_fuel, ◌>>=◌, bug_on,
}
use spfs.Wire.{Bytes, Buffer, load32, load64}
use spfs.Device.{Device, sb_bread, put}
use spfs.FreeList.{FreeList, free_alloc}
use spfs.Inode.{Inode, Failure, eio, einval, enomem, code}
use spfs.Inode
use spfs.Bnode
use spfs.Bnode.{
  capacity, entries, entry_id, entry_offset, inside, store_be, set_child, set_length, get_child,
  find_gte, index_of, bin_insert,
}

-- `btree_insert` with no node: the inode goes to a block of its own, and bubbles up.
unfoldable pub insert_leaf : Bytes → Tree → Inode → ℕ → Res Failure Left
unfolding bubble_make
insert_leaf frame tree inode out =
    let (free, page) = free_alloc tree.free blocks in
    let tree' : Tree = record tree { free = free } in
    if page == 0
    then ok (record { res = some (code 1); tree = tree'; bubble = clear_bubble; out = out })
    else elim (sb_bread tree.dev page) [
      | none ↦ ok (record { res = some eio; tree = tree'; bubble = clear_bubble; out = out })
      | some bh ↦ elim (Inode.make frame bh inode) [
        | ok bh' ↦ ok (record {
          res = none;
          tree = record tree' { dev = put tree.dev page bh' };
          bubble = bubble_make inode.i_ino page 0;
          out = page;
        })
        | err (e, bh') ↦ ok (record {
          res = some e;
          tree = record tree' { dev = put tree.dev page bh' };
          bubble = clear_bubble;
          out = out;
        })
        | bug ↦ bug
        | out_of_fuel ↦ out_of_fuel
      ]
    ]

-- The second half of `btree_insert`: an active bubble goes into the node.
unfoldable pub fix_left : ℕ → ℕ → Left → Res Failure Left
unfolding fixup bubble_is_active
fix_left probes node left =
    if bubble_is_active left.bubble
    then (do
      (res, tree, bubble) ← fixup probes left.tree node left.bubble
      ok (record left { res = res; tree = tree; bubble = bubble }))
    else ok left

-- `btree_insert` from the node in block `node`. The child that it goes down to is read from its
-- block, block 0 included.
unfoldable pub insert_below :
    Bytes → (probes fuel : ℕ) → Tree → (node : ℕ) → Inode → ℕ → Res Failure Left
unfolding fix_left
insert_below frame probes zero tree node inode out = out_of_fuel
insert_below frame probes (suc fuel) tree node inode out =
    let down : ℕ → Res Failure Left = λ child. elim (sb_bread tree.dev child) [
      | none ↦ ok (record { res = some eio; tree = tree; bubble = clear_bubble; out = out })
      | some bh ↦ insert_below frame probes fuel tree child inode out >>= fix_left probes node
    ] in
    let bh = block tree.dev node in
    do
      found ← find_gte probes bh inode.i_ino
      elim found [
        | some gte ↦ inside bh gte 16 bug (
            if entry_id bh gte == inode.i_ino
            then ok (record {
              res = some (code 1);
              tree = tree;
              bubble = clear_bubble;
              out = entry_offset bh gte;
            })
            else bug_on (index_of gte == capacity) (get_child bh (index_of gte) >>= down))
        | none ↦ (do n ← Bnode.length bh; bug_on (n == 0) (get_child bh n >>= down))
      ]

-- `bnode_alloc_root`. The node is made in the block of the old root, and the tree starts at the
-- new block.
unfoldable pub alloc_root : ℕ → Tree → Bubble → Res Failure (Option Failure × Tree)
alloc_root probes tree bubble =
    let (free, root) = free_alloc tree.free blocks in
    let tree' : Tree = record tree { free = free } in
    if root == 0 then ok (some enomem, tree') else elim (sb_bread tree.dev tree.start) [
      | none ↦ ok (some eio, tree')
      | some bh ↦ (do
        let cleared = Bnode.make bh
        n ← Bnode.length cleared
        bh ← set_child cleared n tree.start
        bh ← must_insert probes bh bubble.entry bubble.greater
        n ← Bnode.length bh
        bug_on (n == 0)
            (ok (none, record tree' { dev = put tree.dev tree.start bh; start = root })))
    ]

-- `spfs_btree_insert`: any failure of `bnode_alloc_root` is a BUG_ON.
unfoldable pub insert_root : ℕ → Left → Res Failure Left
unfolding alloc_root bubble_is_active
insert_root probes left =
    if bubble_is_active left.bubble
    then (do
      (res, tree) ← alloc_root probes left.tree left.bubble
      elim res [ none ↦ ok (record left { tree = tree }) | some e ↦ bug ])
    else ok left

unfoldable pub insert : Bytes → (probes fuel : ℕ) → Tree → Inode → Res Failure Left
unfolding insert_leaf insert_below insert_root
insert frame probes fuel tree inode =
    if tree.start == 0
    then insert_leaf frame tree inode 0 >>= insert_root probes
    else elim (sb_bread tree.dev tree.start) [
      | none ↦ ok (record { res = some eio; tree = tree; bubble = clear_bubble; out = 0 })
      | some bh ↦ insert_below frame probes fuel tree tree.start inode 0 >>= insert_root probes
    ]
