-- ===== src/Insert/Full.antt =====
-- Insertion into a tree whose root has entries.
use spfs.Base.{
  ℕ, suc, ◌+◌, ◌*◌, ◌≤◌, ◌<◌, ◌≡◌, ◌≢◌, ◌⊎◌, inl, inr, refl, true, false, ltb, ==_true, ==_false,
  Bool-cases, arith, some, ok, bug,
}
use spfs.Wire.{Bytes, load32, load64}
use spfs.Device.{sb_bread}
use spfs.Inode.{Inode, code}
use spfs.Bnode.{entries, entry_id, entry_offset}
use spfs.Bnode.Search.{find_gte_misses, find_gte_empty, length-ok}
use spfs.Insert.{Tree, block, clear_bubble, bubble_is_active, insert_below, insert_root, insert}

clear_bubble-inactive : bubble_is_active clear_bubble ≡ false
unfolding bubble_is_active load64 load32
clear_bubble-inactive = refl

-- Without entries in the root, every insertion is a BUG.
pub insert_empty-stops :
    (frame : Bytes) (probes fuel : ℕ) (tree : Tree) (inode : Inode)
    → tree.start ≢ 0
    → tree.dev.readable tree.start ≡ true
    → 4 ≤ tree.dev.block_size
    → load32 (tree.dev.blocks tree.start) 0 ≡ 0
    → insert frame probes (suc fuel) tree inode ≡ bug
unfolding insert insert_below sb_bread
insert_empty-stops frame probes fuel tree inode some_root shown header e = rw (
  ==_false tree.start 0 some_root,
  shown,
  find_gte_empty probes (block tree.dev tree.start) inode.i_ino header e,
  length-ok (block tree.dev tree.start) 0 header e (omega arith),
)

-- With 1 to 100 entries in the root, in a block of at most 8192 bytes, no insertion adds an entry,
-- whatever the inode. It stops at an access outside the block, or it reports 1, a duplicate, from
-- bytes behind the entries of the root, and leaves the tree as it was. The fuel is enough.
pub insert_full :
    (frame : Bytes) (probes fuel : ℕ) (tree : Tree) (inode : Inode) (n : ℕ)
    → tree.start ≢ 0
    → tree.dev.readable tree.start ≡ true
    → 4 ≤ tree.dev.block_size
    → tree.dev.block_size ≤ 8192
    → load32 (tree.dev.blocks tree.start) 0 ≡ n
    → 0 < n
    → n ≤ 100
    → (insert frame (suc (suc (suc probes))) (suc fuel) tree inode ≡ bug)
      ⊎ ((p : ℕ) × (entries + n * 16 ≤ p)
          × (entry_id (block tree.dev tree.start) p ≡ inode.i_ino)
          × (insert frame (suc (suc (suc probes))) (suc fuel) tree inode
              ≡ ok (record {
                res = some (code 1);
                tree = tree;
                bubble = clear_bubble;
                out = entry_offset (block tree.dev tree.start) p;
              })))
unfolding insert insert_below insert_root sb_bread
insert_full frame probes fuel tree inode n some_root shown header small e live most =
    elim (find_gte_misses (block tree.dev tree.start) inode.i_ino n live most small e header
      probes) [
        | inl out ↦ inl (rw (==_false tree.start 0 some_root, shown, out))
        | inr (p, found, id, _, behind) ↦ elim (Bool-cases (ltb tree.dev.block_size (p + 16))) [
          | inl out ↦ inl (rw (==_false tree.start 0 some_root, shown, found, out))
          | inr in_block ↦ inr (
            p,
            behind,
            id,
            rw (
              ==_false tree.start 0 some_root,
              shown,
              found,
              in_block,
              ==_true (entry_id (block tree.dev tree.start) p) inode.i_ino id,
              clear_bubble-inactive,
            ),
          )
        ]
      ]
