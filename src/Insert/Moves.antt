-- ===== src/Insert/Moves.antt =====
-- The loop of `bnode_partition` over a full node: it cannot move a second entry.
use spfs.Base.{
  ℕ, zero, suc, ◌+◌, ◌*◌, ◌≤◌, ◌<◌, ◌≡◌, true, false, arith, Bool-cases, inl, inr, ltb, ltb-true,
  ltb-false, ◌==◌, bug, Res, ◌>>=◌,
}
use spfs.Wire.{Bytes, Buffer, load32}
use spfs.Inode.{Failure}
use spfs.Bnode.{entries, entry_id, get_child, children}
use spfs.Bnode.Search.{length-ok}
use spfs.Bnode.Insert.{bin_insert_first, bin_insert_stops}
use spfs.Insert.{must_insert, move_greater}

-- The id of an entry of a node.
abbrev pub id_at : Buffer → ℕ → ℕ
id_at bh i = entry_id bh (entries + i * 16)

-- The entries of a full node come in their order.
abbrev pub IsSorted : Buffer → Type 0
IsSorted bh = (i j : ℕ) → i < j → j < 100 → id_at bh i < id_at bh j

-- The child behind an entry is read, or its place is outside the block.
get_child-cases :
    {A : Type 0} (bh : Buffer) (i : ℕ) (rest : ℕ → Res Failure A)
    → load32 bh.b_data 0 ≡ 100
    → 4 ≤ bh.b_size
    → i ≤ 100
    → ((gt : ℕ) → rest gt ≡ bug)
    → (get_child bh i >>= rest) ≡ bug
unfolding get_child
get_child-cases bh i rest full header below stops =
    rw (length-ok bh 100 header full (omega arith), ltb-false 100 i below)
      (elim (Bool-cases (ltb bh.b_size (children + i * 8 + 8))) [
        | inl out ↦ rw out
        | inr in_block ↦ rw in_block (stops (load32 bh.b_data (children + i * 8)))
      ])

-- A node with entries that is not full takes no other.
pub must_insert-stops :
    (probes : ℕ) (bh : Buffer) (entry : Bytes) (gt n : ℕ)
    → 0 < n
    → n ≤ 100
    → 4 ≤ bh.b_size
    → bh.b_size ≤ 8192
    → load32 bh.b_data 0 ≡ n
    → must_insert (suc (suc (suc probes))) bh entry gt ≡ bug
must_insert-stops probes bh entry gt n live cap header small e =
    rw (bin_insert_stops probes bh entry gt n live cap header small e)
      (elim (Bool-cases (n == 100)) [ inl full ↦ rw full | inr room ↦ rw room ])

module _ (probes : ℕ) (from : Buffer) (pivot : Bytes) (full : load32 from.b_data 0 ≡ 100)
    (header : 4 ≤ from.b_size) where
  -- Where one entry was moved, the next one that is greater than the pivot is a BUG.
  move_second :
      (left i drop : ℕ) (to : Buffer)
      → load32 to.b_data 0 ≡ 1
      → 4 ≤ to.b_size
      → to.b_size ≤ 8192
      → i < 100
      → load32 pivot 0 < id_at from i
      → move_greater (suc (suc (suc probes))) (suc left) i from pivot to true drop ≡ bug
  unfolding move_greater
  move_second left i drop to one room small below greater =
      rw (ltb-true (load32 pivot 0) (id_at from i) greater) (
        get_child-cases from (i + 1) _ full header (omega arith) (λ gt. rw (
          must_insert-stops probes to (λ k. from.b_data (entries + i * 16 + k)) gt 1 (omega arith)
            (omega arith) room small one)))

  -- The loop is stopped where it moves the second entry.
  module _ (sorted : IsSorted from) (low : load32 pivot 0 ≤ id_at from 50) where
    move_first :
        (left i drop : ℕ) (to : Buffer)
        → suc left + i ≡ 100
        → i ≤ 51
        → load32 to.b_data 0 ≡ 0
        → 1620 ≤ to.b_size
        → to.b_size ≤ 8192
        → load32 pivot 0 < id_at from i
        → move_greater (suc (suc (suc probes))) (suc left) i from pivot to false drop ≡ bug
    unfolding move_greater
    move_first zero i drop to e below clear room small greater = absurd (omega arith)
    move_first (suc left) i drop to e below clear room small greater =
        rw (ltb-true (load32 pivot 0) (id_at from i) greater) (
          get_child-cases from (i + 1) _ full header (omega arith) (λ gt.
            let (to', done, single, size) =
              bin_insert_first (suc (suc (suc probes))) to (λ k. from.b_data (entries + i * 16 + k))
                gt room clear in
            rw (done) (
              move_second left (i + 1) (drop + 1) to' single.one (omega (arith, size))
                (omega (arith, size)) (omega arith)
                (omega (arith, sorted i (i + 1) (omega arith) (omega arith))))))

    -- The entries behind the fifty-first are greater than the pivot.
    next_below : (i : ℕ) → i ≤ 51 → ltb (load32 pivot 0) (id_at from i) ≡ false → i + 1 ≤ 51
    next_below i below other = elim (Bool-cases (ltb 50 i)) [
      | inl far ↦ absurd (ground (arith, far, other, low, sorted 50 i))
      | inr near ↦ ground (arith, near)
    ]

    pub move_stops :
        (left i drop : ℕ) (to : Buffer)
        → left + i ≡ 100
        → i ≤ 51
        → load32 to.b_data 0 ≡ 0
        → 1620 ≤ to.b_size
        → to.b_size ≤ 8192
        → move_greater (suc (suc (suc probes))) left i from pivot to false drop ≡ bug
    unfolding move_greater
    move_stops zero i drop to e below clear room small = absurd (omega arith)
    move_stops (suc left) i drop to e below clear room small =
        elim (Bool-cases (ltb (load32 pivot 0) (id_at from i))) [
          | inl greater ↦
              move_first left i drop to e below clear room small (ground (arith, greater))
          | inr other ↦
              rw (move_greater, other)
                (move_stops left (i + 1) drop to (omega arith) (next_below i below other) clear room
                  small)
        ]
