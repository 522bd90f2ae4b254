-- ===== src/Insert/Fixup.antt =====
-- What `btree_fixup` does with a node that has entries.
use spfs.Base.{
  ℕ, suc, ◌+◌, ◌*◌, ◌≤◌, ◌<◌, ◌≡◌, refl, ◌∙◌, ap, true, arith, Bool-cases, inl, inr, ltb, ltb-false,
  ◌==◌, ok, bug,
}
use spfs.Wire.{Buffer, load32}
use spfs.Wire.Laws.{load32_shift}
use spfs.Device.{sb_bread}
use spfs.FreeList.{free_alloc}
use spfs.Bnode
use spfs.Bnode.{index_of, entries, entry_id, get_child, children, bin_insert}
use spfs.Bnode.Search.{length-ok}
use spfs.Insert.{
  Bubble, Tree, block, Pivot, own, extra, pivot_entry, pivot_index, median, partition_at, partition,
  split, fix_full, fixup, bubble_is_active,
}
use spfs.Insert.First.{make-length, make-b_size}
use spfs.Insert.Moves.{id_at, IsSorted, must_insert-stops, move_stops}

-- The pivot of a sorted full node is not greater than the entry in the middle.
median-low :
    (bh : Buffer) (bubble : Bubble)
    → load32 bh.b_data 0 ≡ 100
    → 1620 ≤ bh.b_size
    → IsSorted bh
    → (pivot : Pivot) × (median bh bubble.entry ≡ ok pivot)
      × (load32 (pivot_entry bh bubble pivot) 0 ≤ id_at bh 50)
      × (pivot_index pivot ≡ 100)
unfolding median index_of
median-low bh bubble full room sorted =
    elim (Bool-cases (ltb (id_at bh 50) (load32 bubble.entry 0))) [
      | inl above ↦ (
        own (entries + 50 * 16),
        rw (
          length-ok bh 100 (omega arith) full (omega arith),
          ltb-false bh.b_size 812 (omega arith),
          above,
        ),
        omega (arith, load32_shift bh.b_data 804 0 804 refl),
        refl,
      )
      | inr other ↦ elim (Bool-cases (ltb (id_at bh 49) (load32 bubble.entry 0))) [
        | inl above ↦ (
          extra,
          rw (
            length-ok bh 100 (omega arith) full (omega arith),
            ltb-false bh.b_size 812 (omega arith),
            other,
            above,
          ),
          ground (arith, other),
          refl,
        )
        | inr least ↦ (
          own (entries + 49 * 16),
          rw (
            length-ok bh 100 (omega arith) full (omega arith),
            ltb-false bh.b_size 812 (omega arith),
            other,
            least,
          ),
          omega (
            arith,
            load32_shift bh.b_data 788 0 788 refl,
            sorted 49 50 (omega arith) (omega arith),
          ),
          refl,
        )
      ]
    ]

-- Nothing goes from a sorted full node to another: the second entry stops the loop.
partition-stops :
    (probes n : ℕ) (from : Buffer) (bubble : Bubble) (pivot : Pivot) (to : Buffer)
    → load32 from.b_data 0 ≡ n
    → n ≡ 100
    → 4 ≤ from.b_size
    → IsSorted from
    → load32 (pivot_entry from bubble pivot) 0 ≤ id_at from 50
    → pivot_index pivot ≡ 100
    → load32 to.b_data 0 ≡ 0
    → 1620 ≤ to.b_size
    → to.b_size ≤ 8192
    → partition (suc (suc (suc probes))) from bubble pivot to ≡ bug
unfolding partition partition_at
partition-stops probes n from bubble pivot to e full header sorted low place clear room small =
    let value = pivot_entry from bubble pivot in
    ap (λ i. partition_at (suc (suc (suc probes))) i from value to) place
    ∙ rw (
      length-ok from n header e (omega arith),
      move_stops probes from value (e ∙ full) header sorted low n 0 0 to (omega arith) (omega arith)
          clear room small,
    )

-- The split of such a node, whatever the block of the new one holds.
split-stops :
    (probes n : ℕ) (tree : Tree) (node right : ℕ) (bubble : Bubble) (pivot : Pivot)
    → load32 (tree.dev.blocks node) 0 ≡ n
    → n ≡ 100
    → 1620 ≤ tree.dev.block_size
    → tree.dev.block_size ≤ 8192
    → IsSorted (block tree.dev node)
    → load32 (pivot_entry (block tree.dev node) bubble pivot) 0 ≤ id_at (block tree.dev node) 50
    → pivot_index pivot ≡ 100
    → split (suc (suc (suc probes))) tree node bubble pivot right ≡ bug
unfolding split
split-stops probes n tree node right bubble pivot e full room small sorted low place = rw (
    partition-stops probes n (block tree.dev node) bubble pivot (Bnode.make (block tree.dev right))
      e full (omega arith) sorted low place (make-length (block tree.dev right) (omega arith))
      (omega (arith, make-b_size (block tree.dev right)))
      (omega (arith, make-b_size (block tree.dev right))))

fix_full-stops :
    (probes n : ℕ) (tree : Tree) (node : ℕ) (bubble : Bubble)
    → load32 (tree.dev.blocks node) 0 ≡ n
    → n ≡ 100
    → 1620 ≤ tree.dev.block_size
    → tree.dev.block_size ≤ 8192
    → IsSorted (block tree.dev node)
    → tree.dev.readable (free_alloc tree.free 1).1 ≡ true
    → fix_full (suc (suc (suc probes))) tree node bubble ≡ bug
unfolding fix_full sb_bread
fix_full-stops probes n tree node bubble e full room small sorted shown =
    let (pivot, chosen, low, place) =
      median-low (block tree.dev node) bubble (e ∙ full) room sorted in
    rw (chosen) (elim (Bool-cases ((free_alloc tree.free 1).1 == 0)) [
      | inl no_block ↦ rw no_block
      | inr granted ↦ rw (
        granted,
        shown,
        split-stops probes n (record tree { free = (free_alloc tree.free 1).0 }) node
            (free_alloc tree.free 1).1 bubble pivot e full room small sorted low place,
      )
    ])

-- The bubble of an insertion never goes into a node that has entries, in a block of 1620 to 8192
-- bytes: with 1 to 99 entries, and with 100 entries in their order, where the block that is
-- allocated for the split can be read, `btree_fixup` is a BUG. The fuel is enough.
pub fixup_stops :
    (probes : ℕ) (tree : Tree) (node n : ℕ) (bubble : Bubble)
    → load32 (tree.dev.blocks node) 0 ≡ n
    → 0 < n
    → n ≤ 100
    → 1620 ≤ tree.dev.block_size
    → tree.dev.block_size ≤ 8192
    → (n ≡ 100 → IsSorted (block tree.dev node))
    → tree.dev.readable (free_alloc tree.free 1).1 ≡ true
    → fixup (suc (suc (suc probes))) tree node bubble ≡ bug
unfolding fixup
fixup_stops probes tree node n bubble e live most room small sorted shown =
    elim (Bool-cases (bubble_is_active bubble)) [
      | inr idle ↦ rw idle
      | inl active ↦ elim (Bool-cases (n == 100)) [
        | inr open_ ↦ rw (
          active,
          length-ok (block tree.dev node) n (omega arith) e most,
          open_,
          must_insert-stops probes (block tree.dev node) bubble.entry bubble.greater n live most
              (omega arith) small e,
        )
        | inl full ↦
            let hundred : n ≡ 100 = ground (arith, full) in
            rw (
              active,
              length-ok (block tree.dev node) n (omega arith) e most,
              full,
              fix_full-stops probes n tree node bubble e hundred room small (sorted hundred) shown,
            )
      ]
    ]
