-- ===== src/Dir/Chains.antt =====
-- What `spfs_for_all_children` visits in a directory of any number of blocks.
use spfs.Base.{
  sym, ℕ, zero, suc, ◌+◌, ◌*◌, ◌≤◌, ◌<◌, ◌≡◌, ◌≢◌, refl, ap, Bool, true, false, arith, List, [],
  ◌∷◌, ◌++◌, Option, none, ok, Bool-cases, inl, inr, ◌∙◌, if◌then◌else◌,
}
use spfs.Wire.{Buffer, load32}
use spfs.Wire.Laws.{read_u32-ok, read_sector-ok}
use spfs.Device.{Device, sb_bread}
use spfs.Dir.{Dir, dir_magic, parse_dir_block, s_isdir, visit, for_all_from, for_all_children}
use spfs.Dir.Entries.{length, Entries}
use spfs.Dir.Visits.{visit_all, read_children-visits}

-- The block `start` of a directory, with the children `xs`.
pub record IsBlock (dev : Device) (words start : ℕ) (xs : List ℕ) : Type 0 where
  pub there : start ≢ 0
  pub readable : dev.readable start ≡ true
  pub magic : load32 (dev.blocks start) 0 ≡ dir_magic
  pub count : load32 (dev.blocks start) 8 ≡ length xs
  pub entries : Entries (dev.blocks start) 12 xs
  pub room : 12 + length xs * 8 ≤ dev.block_size
  pub enough : length xs * 2 ≤ words

-- The abstract view of a directory: the children of its blocks, one block behind the other.
unfoldable pub IsChain : Device → (words start : ℕ) → List (List ℕ) → Type 0
IsChain dev words start [] = start ≡ 0
IsChain dev words start (xs ∷ rest) =
    IsBlock dev words start xs × IsChain dev words (load32 (dev.blocks start) 4) rest

-- The number of the blocks, and the children of all of them.
unfoldable pub blocks_of : List (List ℕ) → ℕ
blocks_of [] = 0
blocks_of (xs ∷ rest) = suc (blocks_of rest)

unfoldable pub children_of : List (List ℕ) → List ℕ
children_of [] = []
children_of (xs ∷ rest) = xs ++ children_of rest

parse_dir_block-IsBlock :
    (dev : Device) (words start : ℕ) (xs : List ℕ)
    → IsBlock dev words start xs
    → parse_dir_block (record { b_size = dev.block_size; b_data = dev.blocks start }) 0
      ≡ ok (record { next = load32 (dev.blocks start) 4; children = length xs }, 12)
unfolding parse_dir_block
parse_dir_block-IsBlock dev words start xs is =
    let bh : Buffer = record { b_size = dev.block_size; b_data = dev.blocks start } in
    let room = is.room in
    ground (
      arith,
      read_u32-ok bh 0 (omega arith),
      read_sector-ok bh 4 (omega arith),
      read_u32-ok bh 8 (omega arith),
      is.magic,
      is.count,
    )

-- A directory that has its children `xs` in some blocks, with fuel that is enough for them.
pub record IsFolder (dir : Dir) (words fuel : ℕ) (blocks : List (List ℕ)) (xs : List ℕ)
    : Type 0 where
  pub is_dir : s_isdir dir.parent.i_mode ≡ true
  pub chain : IsChain dir.dev words dir.parent.start blocks
  pub enough : blocks_of blocks < fuel
  pub all : children_of blocks ≡ xs

module _ {I C : Type 0} (by_id : ℕ → Option I) (cb : C → I → C × Bool) where
  visit_all-append :
      (xs ys : List ℕ) (closure : C)
      → visit_all by_id cb (xs ++ ys) closure ≡ (
          if (visit_all by_id cb xs closure).1
          then visit_all by_id cb ys (visit_all by_id cb xs closure).0
          else ((visit_all by_id cb xs closure).0, false))
  unfolding visit_all
  visit_all-append [] ys closure = refl
  visit_all-append (x ∷ xs) ys closure = elim (Bool-cases (visit by_id cb x closure).1) [
    | inl go ↦ rw (visit_all, go) (visit_all-append xs ys (visit by_id cb x closure).0)
    | inr stop ↦ rw (visit_all, stop) refl
  ]

  visit_all_on :
      (xs ys : List ℕ) (closure : C)
      → (visit_all by_id cb xs closure).1 ≡ true
      → visit_all by_id cb (xs ++ ys) closure
        ≡ visit_all by_id cb ys (visit_all by_id cb xs closure).0
  visit_all_on xs ys closure go =
      visit_all-append xs ys closure
      ∙ ap
          (λ b.
            if b
            then visit_all by_id cb ys (visit_all by_id cb xs closure).0
            else ((visit_all by_id cb xs closure).0, false))
          go

  visit_all_off :
      (xs ys : List ℕ) (closure : C)
      → (visit_all by_id cb xs closure).1 ≡ false
      → visit_all by_id cb (xs ++ ys) closure ≡ ((visit_all by_id cb xs closure).0, false)
  visit_all_off xs ys closure stop =
      visit_all-append xs ys closure
      ∙ ap
          (λ b.
            if b
            then visit_all by_id cb ys (visit_all by_id cb xs closure).0
            else ((visit_all by_id cb xs closure).0, false))
          stop

  visit_all_none : (closure : C) → visit_all by_id cb [] closure ≡ (closure, true)
  unfolding visit_all
  visit_all_none closure = refl

  for_all_from-chain :
      (blocks : List (List ℕ)) (words fuel : ℕ) (dev : Device) (start : ℕ) (closure : C)
      → IsChain dev words start blocks
      → blocks_of blocks < fuel
      → for_all_from by_id cb words fuel dev start closure
        ≡ ok ((visit_all by_id cb (children_of blocks) closure).0, none)
  unfolding for_all_from sb_bread IsChain blocks_of children_of
  for_all_from-chain blocks words zero dev start closure is enough = absurd (omega arith)
  for_all_from-chain [] words (suc fuel) dev zero closure is enough =
      ap (λ end. ok (end.0, none)) (sym (visit_all_none closure))
  for_all_from-chain [] words (suc fuel) dev (suc n) closure is enough = absurd (omega arith)
  for_all_from-chain (xs ∷ rest) words (suc fuel) dev zero closure (is, more) enough =
      absurd (is.there refl)
  for_all_from-chain (xs ∷ rest) words (suc fuel) dev (suc n) closure (is, more) enough =
      let walked =
        read_children-visits by_id cb xs words 12
          (record { b_size = dev.block_size; b_data = dev.blocks (suc n) }) closure is.entries
          is.room is.enough in
      elim (Bool-cases (visit_all by_id cb xs closure).1) [
        | inl go ↦
            rw
              (
                for_all_from,
                is.readable,
                parse_dir_block-IsBlock dev words (suc n) xs is,
                walked,
                go,
              )
              (for_all_from-chain rest words fuel dev _ _ more (omega arith)
                ∙ ap (λ end. ok (end.0, none))
                    (sym (visit_all_on xs (children_of rest) closure go)))
        | inr stop ↦
            rw
              (
                for_all_from,
                is.readable,
                parse_dir_block-IsBlock dev words (suc n) xs is,
                walked,
                stop,
              )
              (ap (λ end. ok (end.0, none))
                (sym (visit_all_off xs (children_of rest) closure stop)))
      ]

  -- In a directory of any number of blocks, whose children lie in eight bytes each with zeros
  -- behind them, with words enough for each block and more fuel than blocks, all children are
  -- visited, block after block in the order in which they lie there, each once, up to the first
  -- where the callback says false; the result is 0.
  pub for_all_children-chain :
      (blocks : List (List ℕ)) (words fuel : ℕ) (dir : Dir) (closure : C)
      → s_isdir dir.parent.i_mode ≡ true
      → IsChain dir.dev words dir.parent.start blocks
      → blocks_of blocks < fuel
      → for_all_children by_id cb words fuel dir closure
        ≡ ok ((visit_all by_id cb (children_of blocks) closure).0, none)
  unfolding for_all_children
  for_all_children-chain blocks words fuel dir closure is_dir is enough =
      rw (for_all_children, is_dir)
        (for_all_from-chain blocks words fuel dir.dev dir.parent.start closure is enough)

  pub for_all_children-IsFolder :
      (blocks : List (List ℕ)) (words fuel : ℕ) (dir : Dir) (xs : List ℕ) (closure : C)
      → IsFolder dir words fuel blocks xs
      → for_all_children by_id cb words fuel dir closure
        ≡ ok ((visit_all by_id cb xs closure).0, none)
  for_all_children-IsFolder blocks words fuel dir xs closure is =
      for_all_children-chain blocks words fuel dir closure is.is_dir is.chain is.enough
      ∙ ap (λ xs. ok ((visit_all by_id cb xs closure).0, none)) is.all
