-- ===== src/Insert/Split.antt =====
-- btree.c, `btree_fixup`: the bubble goes into a node, and a full node is split.
use spfs.Base.{
  ℕ, zero, suc, ◌+◌, ◌-◌, ◌*◌, ◌/◌, ◌%◌, ◌^◌, Bool, true, false, not, ltb, ◌==◌, if◌then◌else◌,
  Option, none, some, Res, ok, bug, ◌>>=◌, bug_on,
}
use spfs.Wire.{Bytes, Buffer, load32}
use spfs.Device.{sb_bread, put}
use spfs.FreeList.{free_alloc}
use spfs.Inode.{Failure, eio}
use spfs.Bnode
use spfs.Bnode.{
  capacity, entries, entry_id, entry_offset, inside, store_be, set_child, set_length, get_child,
  find_gte, index_of, bin_insert,
}
use spfs.Insert.State.{Bubble, bubble_is_active, Tree, blocks, block}

-- The pivot of a split: the entry at a pointer into the node, or the entry of the bubble.
pub data Pivot : Type 0 where
  own : ℕ → Pivot
  extra : Pivot

-- The memory of the pivot's entry.
abbrev pub pivot_entry : Buffer → Bubble → Pivot → Bytes
pivot_entry bh bubble (own p) = λ k. bh.b_data (p + k)
pivot_entry bh bubble extra = bubble.entry

-- `bnode_median` of a full node and one entry more.
unfoldable pub median : Buffer → Bytes → Res Failure Pivot
median bh entry = do
  n ← Bnode.length bh
  let mid = entries + (n + 1) / 2 * 16
  bug_on (not (n == capacity)) (
      inside bh mid 8 bug (
        if ltb (entry_id bh mid) (load32 entry 0)
        then ok (own mid)
        else if ltb (entry_id bh (mid - 16)) (load32 entry 0)
        then ok extra
        else ok (own (mid - 16))))

-- `bnode_bin_insert` under `BUG_ON(!res)`.
abbrev pub must_insert : ℕ → Buffer → Bytes → ℕ → Res Failure Buffer
must_insert probes bh entry gt = do
  done ← bin_insert probes bh entry gt
  elim done [ none ↦ bug | some (bh', p) ↦ ok bh' ]

-- The loop of `bnode_partition` over the entries behind the pivot, with the number that is left.
unfoldable pub move_behind : (probes left i : ℕ) → Buffer → Buffer → ℕ → Res Failure (Buffer × ℕ)
move_behind probes zero i from to drop = ok (to, drop)
move_behind probes (suc left) i from to drop = do
  gt ← get_child from (i + 1)
  to ← must_insert probes to (λ k. from.b_data (entries + i * 16 + k)) gt
  move_behind probes left (i + 1) from to (drop + 1)

-- The loop over all entries, where the pivot's place is not known. `moving` says that one was
-- moved.
unfoldable pub move_greater :
    (probes left i : ℕ) → Buffer → Bytes → Buffer → Bool → ℕ → Res Failure (Buffer × ℕ)
move_greater probes zero i from pivot to moving drop = bug_on (not moving) (ok (to, drop))
move_greater probes (suc left) i from pivot to moving drop = do
  if ltb (load32 pivot 0) (entry_id from (entries + i * 16))
      then (do
        gt ← get_child from (i + 1)
        to ← must_insert probes to (λ k. from.b_data (entries + i * 16 + k)) gt
        move_greater probes left (i + 1) from pivot to true (drop + 1))
      else bug_on moving (move_greater probes left (i + 1) from pivot to moving drop)

-- The index of a pivot. The bubble does not lie in the first 100 bytes of the entries.
abbrev pub pivot_index : Pivot → ℕ
pivot_index (own p) = index_of p
pivot_index extra = capacity

-- `bnode_partition` with the index of the pivot: the entries behind it go to `to`, and are dropped
-- from `from`.
unfoldable pub partition_at :
    ℕ → (index : ℕ) → Buffer → (pivot : Bytes) → Buffer → Res Failure (Buffer × Buffer)
unfolding move_behind move_greater
partition_at probes index from pivot to = do
  n ← Bnode.length from
  (to, drop) ←
      if not (index == capacity)
      then move_behind probes (n - (index + 1)) (index + 1) from to 0
      else move_greater probes n 0 from pivot to false 0
  from ← bug_on (ltb n drop) (set_length from (n - drop))
  ok (from, to)

unfoldable pub partition : ℕ → Buffer → Bubble → Pivot → Buffer → Res Failure (Buffer × Buffer)
unfolding partition_at index_of
partition probes from bubble pivot to =
    partition_at probes (pivot_index pivot) from (pivot_entry from bubble pivot) to

-- `bnode_extract`: the last entry of the node becomes the bubble, and its child the first of
-- `right`.
unfoldable pub extract : Buffer → ℕ → Bubble → Buffer → Res Failure (Buffer × Bubble × Buffer)
extract bh needle bubble right = do
  n ← Bnode.length bh
  let idx = index_of needle
  bug_on (idx == capacity) (
      bug_on (not (idx == (n + 2 ^ 32 - 1) % 2 ^ 32)) (
        inside bh (entries + idx * 16) 16 bug (do
          gt ← get_child bh (idx + 1)
          let entry : Bytes = λ k. bh.b_data (entries + idx * 16 + k)
          bh ← set_length bh (n - 1)
          m ← Bnode.length right
          first ← bug_on (m == 0) (get_child right 0)
          right ← bug_on (not (first == 0)) (set_child right 0 gt)
          ok (bh, record bubble { entry = entry }, right))))

-- `btree_fixup` of a node with room, which keeps the bubble.
unfoldable pub fix_room : ℕ → Tree → ℕ → Bubble → Res Failure (Option Failure × Tree × Bubble)
fix_room probes tree node bubble = do
  bh ← must_insert probes (block tree.dev node) bubble.entry bubble.greater
  ok (none, record tree { dev = put tree.dev node bh }, bubble)

-- Where the bubble goes when it is not the pivot, and the pivot that becomes the new bubble.
unfoldable pub place_bubble :
    ℕ → Buffer → Bubble → Pivot → Buffer → Res Failure (Buffer × Bubble × Buffer)
unfolding extract
place_bubble probes bh bubble extra right = do
  first ← get_child right 0
  right ← bug_on (not (first == 0)) (set_child right 0 bubble.greater)
  ok (bh, bubble, right)
place_bubble probes bh bubble (own med) right =
    if ltb (entry_id bh med) (load32 bubble.entry 0)
    then (do
      right ← must_insert probes right bubble.entry bubble.greater
      extract bh med bubble right)
    else (do bh ← must_insert probes bh bubble.entry bubble.greater; extract bh med bubble right)

-- The split of a full node into itself and the new node in block `right`.
unfoldable pub split : ℕ → Tree → ℕ → Bubble → Pivot → (right : ℕ) → Res Failure (Tree × Bubble)
unfolding partition place_bubble Bnode.make
split probes tree node bubble med right = do
  let cleared = Bnode.make (block tree.dev right)
  (bh, new) ← partition probes (block tree.dev node) bubble med cleared
  (bh, bubble, new) ← place_bubble probes bh bubble med new
  ok (record tree { dev = put (put tree.dev node bh) right new }, record bubble { greater = right })

-- `btree_fixup` of a full node.
unfoldable pub fix_full : ℕ → Tree → ℕ → Bubble → Res Failure (Option Failure × Tree × Bubble)
fix_full probes tree node bubble = do
  med ← median (block tree.dev node) bubble.entry
  let (free, right) = free_alloc tree.free blocks
  bug_on (right == 0) (
      let tree' : Tree = record tree { free = free } in
      elim (sb_bread tree.dev right) [
        | none ↦ ok (some eio, tree', bubble)
        | some bh ↦ (do
          (tree'', bubble') ← split probes tree' node bubble med right
          ok (none, tree'', bubble'))
      ])

unfoldable pub fixup : ℕ → Tree → ℕ → Bubble → Res Failure (Option Failure × Tree × Bubble)
unfolding fix_room bubble_is_active
fixup probes tree node bubble = bug_on (not (bubble_is_active bubble)) (do
  n ← Bnode.length (block tree.dev node)
  if not (n == capacity)
      then fix_room probes tree node bubble
      else fix_full probes tree node bubble)
