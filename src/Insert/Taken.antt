-- ===== src/Insert/Taken.antt =====
-- What an insertion takes of the free list: some allocations, on every branch.
use spfs.Base.{
  ℕ, zero, suc, ◌+◌, ◌==◌, Option, none, some, ok, Returns, Returns-bind, Returns-after,
  Returns-bug_on, Returns-if, Returns-option, ltb, ◌>>=◌, arith,
}
use spfs.Wire.{Bytes}
use spfs.Device.{sb_bread}
use spfs.FreeList.{free_alloc}
use spfs.FreeList.Served.{Served, Served-refl, Served-trans, Served-one}
use spfs.Inode.{Inode, Failure, eio}
use spfs.Bnode
use spfs.Bnode.{find_gte, get_child, entry_id, index_of, capacity}
use spfs.Insert.{
  clear_bubble, bubble_is_active, Tree, Bubble, Left, Pivot, blocks, block, median, must_insert,
  split, partition, place_bubble, fix_room, fix_full, fixup, insert_leaf, fix_left, insert_below,
  alloc_root, insert_root, insert,
}

-- The tree that is left.
abbrev Taken : Tree → Tree → Type 0
Taken tree tree' = Served tree.free tree'.free

abbrev Fixed : Tree → Option Failure × Tree × Bubble → Type 0
Fixed tree (res, tree', bubble) = Taken tree tree'

abbrev pub TakenBy : Tree → Left → Type 0
TakenBy tree left = Taken tree left.tree

split_keeps :
    (probes : ℕ) (tree tree' : Tree) (node : ℕ) (bubble : Bubble) (med : Pivot) (right : ℕ)
    → Taken tree tree'
    → Returns (λ out. Taken tree out.0) (split probes tree' node bubble med right)
unfolding split
split_keeps probes tree tree' node bubble med right taken =
    Returns-after _
      (partition probes (block tree'.dev node) bubble med (Bnode.make (block tree'.dev right))) _
      (λ (bh, new). Returns-after _ (place_bubble probes bh bubble med new) _ (λ end. taken))

fix_room-Fixed :
    (probes : ℕ) (tree : Tree) (node : ℕ) (bubble : Bubble)
    → Returns (Fixed tree) (fix_room probes tree node bubble)
unfolding fix_room
fix_room-Fixed probes tree node bubble =
    Returns-after (Fixed tree)
      (must_insert probes (block tree.dev node) bubble.entry bubble.greater) _
      (λ bh. Served-refl tree.free)

fix_full-Fixed :
    (probes : ℕ) (tree : Tree) (node : ℕ) (bubble : Bubble)
    → Returns (Fixed tree) (fix_full probes tree node bubble)
unfolding fix_full
fix_full-Fixed probes tree node bubble =
    Returns-after (Fixed tree) (median (block tree.dev node) bubble.entry) _ (λ med.
      let (free, right) = free_alloc tree.free blocks in
      let tree' : Tree = record tree { free = free } in
      let one = Served-one tree.free blocks in
      Returns-bug_on (Fixed tree) (right == 0) _ (
        Returns-option (Fixed tree) (sb_bread tree.dev right) _ _ one (λ bh.
          Returns-bind (λ out. Taken tree out.0) (Fixed tree)
            (split probes tree' node bubble med right) _
            (split_keeps probes tree tree' node bubble med right one)
            (λ (tree'', bubble') taken. taken))))

fixup-Fixed :
    (probes : ℕ) (tree : Tree) (node : ℕ) (bubble : Bubble)
    → Returns (Fixed tree) (fixup probes tree node bubble)
unfolding fixup
fixup-Fixed probes tree node bubble =
    ground (arith, fix_room-Fixed probes tree node bubble, fix_full-Fixed probes tree node bubble)

insert_leaf-TakenBy :
    (frame : Bytes) (tree : Tree) (inode : Inode) (out : ℕ)
    → Returns (TakenBy tree) (insert_leaf frame tree inode out)
unfolding insert_leaf
insert_leaf-TakenBy frame tree inode out = let one = Served-one tree.free blocks in ground arith

fix_left-TakenBy :
    (probes node : ℕ) (tree : Tree) (left : Left)
    → TakenBy tree left
    → Returns (TakenBy tree) (fix_left probes node left)
unfolding fix_left
fix_left-TakenBy probes node tree left taken =
    Returns-if (TakenBy tree) (bubble_is_active left.bubble) _ _
      (Returns-bind (Fixed left.tree) (TakenBy tree) (fixup probes left.tree node left.bubble) _
        (fixup-Fixed probes left.tree node left.bubble)
        (λ (res, tree', bubble) more. Served-trans taken more))
      taken

insert_below-TakenBy :
    (frame : Bytes) (probes fuel : ℕ) (tree : Tree) (node : ℕ) (inode : Inode) (out : ℕ)
    → Returns (TakenBy tree) (insert_below frame probes fuel tree node inode out)
unfolding insert_below
insert_below-TakenBy frame probes zero tree node inode out = tt
insert_below-TakenBy frame probes (suc fuel) tree node inode out =
    let bh = block tree.dev node in
    let same = Served-refl tree.free in
    let down : (child : ℕ)
        → Returns (TakenBy tree) (elim (sb_bread tree.dev child) [
          | none ↦ ok (record { res = some eio; tree = tree; bubble = clear_bubble; out = out })
          | some bh ↦ insert_below frame probes fuel tree child inode out >>= fix_left probes node
        ]) =
      λ child. Returns-option (TakenBy tree) (sb_bread tree.dev child) _ _ same (λ bh.
        Returns-bind (TakenBy tree) (TakenBy tree)
          (insert_below frame probes fuel tree child inode out) _
          (insert_below-TakenBy frame probes fuel tree child inode out)
          (fix_left-TakenBy probes node tree)) in
    Returns-after (TakenBy tree) (find_gte probes bh inode.i_ino) _ (λ found.
      Returns-option (TakenBy tree) found _ _
        (Returns-after (TakenBy tree) (Bnode.length bh) _ (λ n.
          Returns-bug_on (TakenBy tree) (n == 0) _
            (Returns-after (TakenBy tree) (get_child bh n) _ down)))
        (λ gte. Returns-if (TakenBy tree) (ltb bh.b_size (gte + 16)) _ _ tt (
          Returns-if (TakenBy tree) (entry_id bh gte == inode.i_ino) _ _ same (
            Returns-bug_on (TakenBy tree) (index_of gte == capacity) _
              (Returns-after (TakenBy tree) (get_child bh (index_of gte)) _ down)))))

alloc_root-Taken :
    (probes : ℕ) (tree : Tree) (bubble : Bubble)
    → Returns (λ out. Taken tree out.1) (alloc_root probes tree bubble)
unfolding alloc_root
alloc_root-Taken probes tree bubble = let one = Served-one tree.free blocks in ground arith

insert_root-TakenBy :
    (probes : ℕ) (tree : Tree) (left : Left)
    → TakenBy tree left
    → Returns (TakenBy tree) (insert_root probes left)
unfolding insert_root
insert_root-TakenBy probes tree left taken =
    Returns-if (TakenBy tree) (bubble_is_active left.bubble) _ _
      (Returns-bind (λ out. Taken left.tree out.1) (TakenBy tree)
        (alloc_root probes left.tree left.bubble) _ (alloc_root-Taken probes left.tree left.bubble)
        (λ (res, tree') more.
          Returns-option (TakenBy tree) res _ _ (Served-trans taken more) (λ e. tt)))
      taken

pub insert-TakenBy :
    (frame : Bytes) (probes fuel : ℕ) (tree : Tree) (inode : Inode)
    → Returns (TakenBy tree) (insert frame probes fuel tree inode)
unfolding insert
insert-TakenBy frame probes fuel tree inode =
    Returns-if (TakenBy tree) (tree.start == 0) _ _
      (Returns-bind (TakenBy tree) (TakenBy tree) (insert_leaf frame tree inode 0) _
        (insert_leaf-TakenBy frame tree inode 0) (insert_root-TakenBy probes tree))
      (Returns-option (TakenBy tree) (sb_bread tree.dev tree.start) _ _ (Served-refl tree.free)
        (λ bh.
          Returns-bind (TakenBy tree) (TakenBy tree)
            (insert_below frame probes fuel tree tree.start inode 0) _
            (insert_below-TakenBy frame probes fuel tree tree.start inode 0)
            (insert_root-TakenBy probes tree)))
