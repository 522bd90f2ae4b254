-- ===== src/Bnode/Insert.antt =====
-- What `bnode_bin_insert` does: it fills an empty node, and never adds to one that has entries.
use spfs.Base.{
  ℕ, suc, ◌+◌, ◌*◌, ◌%◌, ◌^◌, ◌≤◌, ◌<◌, ◌≡◌, refl, inl, inr, arith, ◌==◌, if◌then◌else◌, ltb-false,
  ==_false, ==_true, none, some, ok, bug, ◌∙◌,
}
use spfs.Wire.{Bytes, Buffer, load32, store32, copy}
use spfs.Bnode.{
  entry_id, entries, children, set_length, set_child, set_entry, store_be, move, insert_at,
  bin_insert,
}
use spfs.Bnode.Search.{find_gte_misses, find_gte_empty, length-ok}

-- In a full node nothing is inserted, and in one with entries the insertion is stopped: by a probe
-- outside the block, or by the BUG_ON for an entry that is there already. Its fuel is enough.
pub bin_insert_stops :
    (fuel : ℕ) (bh : Buffer) (entry : Bytes) (gt n : ℕ)
    → 0 < n
    → n ≤ 100
    → 4 ≤ bh.b_size
    → bh.b_size ≤ 8192
    → load32 bh.b_data 0 ≡ n
    → bin_insert (suc (suc (suc fuel))) bh entry gt ≡ (if n == 100 then ok none else bug)
unfolding bin_insert
bin_insert_stops fuel bh entry gt n live cap header small e =
    rw (length-ok bh n header e cap, ==_false n 0 (omega arith), ==_false (n + 1) 0 (omega arith))
      (elim (find_gte_misses bh (load32 entry 0) n live cap small e header fuel) [
        | inl out ↦ rw out
        | inr hit ↦ rw (hit.1, ==_true (entry_id bh hit.0) (load32 entry 0) hit.2)
      ])

-- An entry of a node as it stands in the block, and the node with one entry.
pub record IsSingle (bh : Buffer) (entry : Bytes) (gt : ℕ) : Type 0 where
  pub one : load32 bh.b_data 0 ≡ 1
  pub has_entry : (k : ℕ) → k < 16 → bh.b_data (entries + k) ≡ entry k
  pub less_child : load32 bh.b_data children ≡ 0
  pub greater_child : load32 bh.b_data (children + 8) ≡ gt % 2 ^ 32

pub set_child-ok :
    (bh : Buffer) (index child : ℕ)
    → children + index * 8 + 8 ≤ bh.b_size
    → set_child bh index child
      ≡ ok (record bh { b_data = store_be bh.b_data (children + index * 8) child })
unfolding set_child
set_child-ok bh index child h = rw (ltb-false bh.b_size (children + index * 8 + 8) h)

set_entry-ok :
    (bh : Buffer) (index : ℕ) (src : Bytes)
    → entries + index * 16 + 16 ≤ bh.b_size
    → set_entry bh index src
      ≡ ok (record bh { b_data = copy bh.b_data (entries + index * 16) src 16 })
unfolding set_entry
set_entry-ok bh index src h = rw (ltb-false bh.b_size (entries + index * 16 + 16) h)

pub set_length-ok :
    (bh : Buffer) (n : ℕ)
    → 4 ≤ bh.b_size
    → n ≤ 100
    → set_length bh n ≡ ok (record bh { b_data = store32 bh.b_data 0 n })
unfolding set_length
set_length-ok bh n h cap = rw (ltb-false bh.b_size 4 h, ltb-false 100 n cap)

move-ok :
    (bh : Buffer) (dest src len : ℕ)
    → dest + len ≤ bh.b_size
    → src + len ≤ bh.b_size
    → move bh dest src len
      ≡ ok (record bh { b_data = copy bh.b_data dest (λ k. bh.b_data (src + k)) len })
unfolding move
move-ok bh dest src len h k =
    rw (ltb-false bh.b_size (dest + len) h, ltb-false bh.b_size (src + len) k)

-- The blocks of a node without an entry while one is put in: nothing is moved, the entry comes
-- first, the length is 1, and the second child is the one behind the entry.
module _ (bh : Buffer) (entry : Bytes) (gt : ℕ) where
  abbrev moved : Buffer
  moved = record bh { b_data = copy bh.b_data 20 (λ k. bh.b_data (4 + k)) 0 }

  abbrev placed : Buffer
  placed = record bh { b_data = copy moved.b_data 4 entry 16 }

  abbrev counted : Buffer
  counted = record bh { b_data = store32 placed.b_data 0 1 }

  pub filled : Buffer
  filled = record bh { b_data = store_be counted.b_data 1612 gt }

  filled-length : load32 filled.b_data 0 ≡ 1
  unfolding filled store_be load32 store32
  filled-length = omega arith

  insert_at-filled :
      1620 ≤ bh.b_size
      → load32 bh.b_data 0 ≡ 0
      → insert_at bh entries entry gt ≡ ok (filled, entries)
  unfolding insert_at filled
  insert_at-filled room e = rw (
    length-ok bh 0 (omega arith) e (omega arith),
    move-ok bh 20 4 0 (omega arith) (omega arith),
    set_entry-ok moved 0 entry (omega arith),
    set_length-ok placed 1 (omega arith) (omega arith),
    set_child-ok counted 1 gt (omega arith),
    length-ok filled 1 (omega arith) filled-length (omega arith),
  )

  filled-IsSingle : load32 bh.b_data children ≡ 0 → IsSingle filled entry gt
  unfolding filled store_be load32 store32 copy
  filled-IsSingle less = record {
    one = omega arith;
    has_entry = λ k h. ground arith;
    less_child = ground arith;
    greater_child = omega arith;
  }

store_be-load32 : (m : Bytes) (v : ℕ) → load32 (store_be m children v) 0 ≡ load32 m 0
unfolding store_be load32 store32
store_be-load32 m v = refl

store_be-child : (m : Bytes) (v : ℕ) → load32 (store_be m children v) children ≡ v % 2 ^ 32
unfolding store_be load32 store32
store_be-child m v = omega arith

-- In a block of at least 1620 bytes that holds a node without entries, `bnode_bin_insert` succeeds
-- and gives the node with this one entry, with child 0 before it and the given child behind it.
pub bin_insert_first :
    (fuel : ℕ) (bh : Buffer) (entry : Bytes) (gt : ℕ)
    → 1620 ≤ bh.b_size
    → load32 bh.b_data 0 ≡ 0
    → (bh' : Buffer) × (bin_insert fuel bh entry gt ≡ ok (some (bh', entries)))
      × IsSingle bh' entry gt
      × (bh'.b_size ≡ bh.b_size)
unfolding bin_insert
bin_insert_first fuel bh entry gt room e =
    let cleared : Buffer = record bh { b_data = store_be bh.b_data children 0 } in
    let no_entry : load32 cleared.b_data 0 ≡ 0 = store_be-load32 bh.b_data 0 ∙ e in
    (
      filled cleared entry gt,
      rw (
        length-ok bh 0 (omega arith) e (omega arith),
        set_child-ok bh 0 0 (omega arith),
        find_gte_empty fuel cleared (load32 entry 0) (omega arith) no_entry,
        insert_at-filled cleared entry gt room no_entry,
      ),
      filled-IsSingle cleared entry gt (store_be-child bh.b_data 0),
      unfold filled in refl,
    )
