-- ===== src/Dir/Kept.antt =====
-- `spfs_add_child` leaves the mode of the directory alone, and only allocates from the free list.
use spfs.Base.{
  ℕ, zero, suc, ◌≡◌, ◌==◌, Res-cases, Bool-cases, inl, inr, Returns, Returns-bind, Returns-after,
  Returns-if, Returns-option,
}
use spfs.Wire.{Buffer}
use spfs.Device.{sb_bread}
use spfs.FreeList.{FreeList, free_alloc}
use spfs.FreeList.Served.{Served, Served-trans, Served-one}
use spfs.Dir.{
  Dir, DirBlock, make_dir_block, kept, write_child, parse_dir_block, dir_is_full, block_alloc,
  append, add_first, add_from, add_child,
}

-- The directory has the mode, and its free list is what is left of `free`.
module _ (mode : ℕ) (free : FreeList) where
  abbrev pub IsKept : Dir → Type 0
  IsKept dir = (dir.parent.i_mode ≡ mode) × Served free dir.free

  abbrev Out : {R : Type 0} → R × Dir → Type 0
  Out (r, dir) = IsKept dir

  append-IsKept :
      (dir : Dir) (start : ℕ) (bh : Buffer) (pos : ℕ) (block : DirBlock) (child : ℕ)
      → IsKept dir
      → Returns IsKept (append dir start bh pos block child)
  unfolding append
  append-IsKept dir start bh pos block child is =
      Returns-after IsKept (kept bh (write_child bh pos block.children child)) _
        (λ bh. Returns-after IsKept (make_dir_block bh 0 _) _ (λ made. is))

  block_alloc-IsKept : (dir : Dir) → IsKept dir → Returns Out (block_alloc dir)
  unfolding block_alloc
  block_alloc-IsKept dir (same, taken) =
      let out : IsKept (record dir { free = (free_alloc dir.free 1).0 }) =
        (same, Served-trans taken (Served-one dir.free 1)) in
      Returns-if Out ((free_alloc dir.free 1).1 == 0) _ _ out (
        Returns-option Out (sb_bread dir.dev (free_alloc dir.free 1).1) _ _ out (λ bh.
          Returns-after Out (make_dir_block bh 0 (record { next = 0; children = 0 })) _
            (λ (res, bh, pos). Returns-option Out res _ _ out (λ e. out))))

  add_first-IsKept : (dir : Dir) (child : ℕ) → IsKept dir → Returns Out (add_first dir child)
  unfolding add_first
  add_first-IsKept dir child is =
      Returns-bind Out Out (block_alloc dir) _ (block_alloc-IsKept dir is) (λ (got, dir) is.
        Returns-option Out got _ _ is (λ (start, bh, pos).
          Returns-bind IsKept Out
            (append (record dir { parent = record dir.parent { start = start } }) start bh pos
              (record { next = 0; children = 0 }) child)
            _
            (append-IsKept (record dir { parent = record dir.parent { start = start } }) start bh
              pos (record { next = 0; children = 0 }) child is)
            (λ dir is. is)))

  add_from-IsKept :
      (fuel : ℕ) (dir : Dir) (start child : ℕ)
      → IsKept dir
      → Returns Out (add_from fuel dir start child)
  unfolding add_from
  add_from-IsKept zero dir start child is = tt
  add_from-IsKept (suc fuel) dir zero child is = add_first-IsKept dir child is
  add_from-IsKept (suc fuel) dir (suc n) child is =
      Returns-option Out (sb_bread dir.dev (suc n)) _ _ is (λ bh.
        elim (Res-cases (parse_dir_block bh 0)) [
          | inl (parsed, e) ↦ rw (e) (elim (Bool-cases (dir_is_full parsed.0)) [
            | inl full ↦ rw (full) (add_from-IsKept fuel dir parsed.0.next child is)
            | inr room ↦ rw (room) (
                Returns-bind IsKept Out (append dir (suc n) bh parsed.1 parsed.0 child) _
                  (append-IsKept dir (suc n) bh parsed.1 parsed.0 child is) (λ dir is. is))
          ])
          | inr (inl (f, e)) ↦ rw (e) is
          | inr (inr (inl e)) ↦ rw (e) tt
          | inr (inr (inr e)) ↦ rw (e) tt
        ])

  pub add_child-IsKept :
      (fuel : ℕ) (dir : Dir) (child : ℕ) → IsKept dir → Returns Out (add_child fuel dir child)
  unfolding add_child
  add_child-IsKept fuel dir child is = add_from-IsKept fuel _ dir.parent.start child is
