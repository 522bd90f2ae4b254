-- ===== src/Dir/Full.antt =====
-- A child for a directory whose block is full.
use spfs.Base.{
  ℕ, zero, suc, ◌%◌, ◌^◌, ◌≤◌, ◌≡◌, ◌≢◌, refl, sym, ◌∙◌, ==_true, ==_false, arith, Bool, true, List,
  [], ◌∷◌, Option, none, ok,
}
use spfs.Device.{sb_bread, put}
use spfs.Dir.{Dir, dir_is_full, add_from, add_child, for_all_children}
use spfs.Dir.Entries.{length}
use spfs.Dir.Visits.{
  IsDirBlock, IsDirectory, parse_dir_block-IsDirBlock, visit_all, for_all_children-visits,
}
use spfs.Dir.First.{
  IsOpenable, counted, counted-IsOpenable, opened, opened-IsDirectory, add_from_none,
  add_first-opened,
}

-- The loop passes over a block that is full, to the end of the list of blocks.
add_from-full :
    (fuel : ℕ) (dir : Dir) (start page : ℕ) (xs : List ℕ) (child : ℕ)
    → start ≢ 0
    → dir.dev.readable start ≡ true
    → IsDirBlock (record { b_size = dir.dev.block_size; b_data = dir.dev.blocks start }) xs
    → length xs ≡ 100
    → IsOpenable dir page
    → add_from (suc (suc fuel)) dir start child ≡ ok (none, opened dir page child)
unfolding add_from sb_bread dir_is_full
add_from-full fuel dir zero page xs child nz shown is full free = ground (arith, nz)
add_from-full fuel dir (suc n) page xs child nz shown is full free =
    rw (add_from, shown, parse_dir_block-IsDirBlock is, ==_true (length xs) 100 full)
      (add_from_none fuel dir 0 child refl ∙ add_first-opened dir page child free)

-- A directory of one block with 100 children, where a block for another child can be allocated and
-- read and is clear behind its header, is given a child that is not 0 in 32 bits. The child is
-- added, but its block becomes the first of the directory and names no other: then
-- `spfs_for_all_children` visits the new child and none of the 100, whose block is as it was. The
-- fuel is enough.
pub add_child-full :
    {I C : Type 0} (by_id : ℕ → Option I) (cb : C → I → C × Bool) (fuel words : ℕ) (dir : Dir)
    (page : ℕ) (xs : List ℕ) (child : ℕ) (closure : C)
    → IsDirectory dir xs
    → length xs ≡ 100
    → IsOpenable dir page
    → page ≢ dir.parent.start
    → child % 2 ^ 32 ≢ 0
    → 2 ≤ words
    → (dir' : Dir) × (add_child (suc (suc fuel)) dir child ≡ ok (none, dir'))
      × (for_all_children by_id cb words (suc (suc fuel)) dir' closure
          ≡ ok ((visit_all by_id cb (child % 2 ^ 32 ∷ []) closure).0, none))
      × (dir'.dev.blocks dir.parent.start ≡ dir.dev.blocks dir.parent.start)
unfolding add_child length put
add_child-full by_id cb fuel words dir page x child closure is full free apart nz enough =
    let free' = counted-IsOpenable dir page free in
    let dir' = opened (counted dir) page child in
    (
      dir',
      add_from-full fuel (counted dir) dir.parent.start page x child is.start is.readable is.block
          full free',
      for_all_children-visits by_id cb words fuel dir' (child % 2 ^ 32 ∷ []) closure
          (opened-IsDirectory (counted dir) page child free' nz) enough,
      rw (==_false dir.parent.start page (λ e. apart (sym e))) refl,
    )
