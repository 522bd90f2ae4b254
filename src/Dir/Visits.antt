-- ===== src/Dir/Visits.antt =====
-- What `spfs_for_all_children` visits in a directory of one block.
use spfs.Base.{
  ℕ, zero, suc, ◌+◌, ◌*◌, ◌≤◌, ◌≡◌, ◌≢◌, refl, sym, ap, Bool, true, false, if◌then◌else◌, ==_true,
  ==_false, arith, List, [], ◌∷◌, Option, none, ok, Bool-cases, inl, inr, ◌∙◌,
}
use spfs.Wire.{Buffer, load32}
use mathlib.Core.Path.{subst}
use spfs.Wire.Laws.{read_u32-ok, read_sector-ok, read_ino-ok}
use spfs.Device.{Device, sb_bread}
use spfs.Dir.{
  Dir, dir_magic, parse_dir_block, s_isdir, Walk, behind, leave, visit, read_children, for_all_from,
  for_all_children,
}
use spfs.Dir.Entries.{length, Entries}

-- A block of a directory that is the last one, with the children `xs`.
pub record IsDirBlock (bh : Buffer) (xs : List ℕ) : Type 0 where
  pub magic : load32 bh.b_data 0 ≡ dir_magic
  pub last : load32 bh.b_data 4 ≡ 0
  pub count : load32 bh.b_data 8 ≡ length xs
  pub entries : Entries bh.b_data 12 xs
  pub room : 12 + length xs * 8 ≤ bh.b_size

-- A directory that has its children `xs` in one block.
pub record IsDirectory (dir : Dir) (xs : List ℕ) : Type 0 where
  pub is_dir : s_isdir dir.parent.i_mode ≡ true
  pub start : dir.parent.start ≢ 0
  pub readable : dir.dev.readable dir.parent.start ≡ true
  pub block :
      IsDirBlock
        (record { b_size = dir.dev.block_size; b_data = dir.dev.blocks dir.parent.start })
        xs

pub parse_dir_block-IsDirBlock :
    {bh : Buffer} {xs : List ℕ}
    → IsDirBlock bh xs
    → parse_dir_block bh 0 ≡ ok (record { next = 0; children = length xs }, 12)
unfolding parse_dir_block
parse_dir_block-IsDirBlock {bh} {xs} is =
    let room = is.room in
    ground (
      arith,
      read_u32-ok bh 0 (omega arith),
      read_sector-ok bh 4 (omega arith),
      read_u32-ok bh 8 (omega arith),
      is.magic,
      is.last,
      is.count,
    )

module _ {I C : Type 0} (by_id : ℕ → Option I) (cb : C → I → C × Bool) where
  -- The callback on one child after the other, until it says false.
  unfoldable pub visit_all : List ℕ → C → C × Bool
  visit_all [] closure = (closure, true)
  visit_all (x ∷ xs) closure =
      let (closure', go_on) = visit by_id cb x closure in
      let rest = visit_all xs closure' in if go_on then rest else (closure', false)

  abbrev walked : C × Bool → C × Walk
  walked (closure, true) = (closure, behind)
  walked (closure, false) = (closure, leave none)

  module _ (bh : Buffer) (pos : ℕ) (room : pos + 8 ≤ bh.b_size) where
    read_gap :
        (fuel left : ℕ) (closure : C)
        → load32 bh.b_data pos ≡ 0
        → read_children by_id cb (suc fuel) bh pos (suc left) closure
          ≡ read_children by_id cb fuel bh (pos + 4) (suc left) closure
    unfolding read_children
    read_gap fuel left closure h =
        rw (read_children, read_ino-ok bh pos room, ==_true (load32 bh.b_data pos) 0 h) refl

    read_child :
        (fuel left x : ℕ) (closure : C)
        → load32 bh.b_data pos ≡ x
        → x ≢ 0
        → (visit by_id cb x closure).1 ≡ true
        → read_children by_id cb (suc fuel) bh pos (suc left) closure
          ≡ read_children by_id cb fuel bh (pos + 4) left (visit by_id cb x closure).0
    unfolding read_children
    read_child fuel left x closure e h go =
        subst
          (λ x.
            x ≢ 0
            → (visit by_id cb x closure).1 ≡ true
            → read_children by_id cb (suc fuel) bh pos (suc left) closure
              ≡ read_children by_id cb fuel bh (pos + 4) left (visit by_id cb x closure).0)
          e
          (λ h w.
            rw (read_children, read_ino-ok bh pos room, ==_false (load32 bh.b_data pos) 0 h, w)
              refl)
          h go

    read_last :
        (fuel left x : ℕ) (closure : C)
        → load32 bh.b_data pos ≡ x
        → x ≢ 0
        → (visit by_id cb x closure).1 ≡ false
        → read_children by_id cb (suc fuel) bh pos (suc left) closure
          ≡ ok ((visit by_id cb x closure).0, leave none)
    unfolding read_children
    read_last fuel left x closure e h stop =
        subst
          (λ x.
            x ≢ 0
            → (visit by_id cb x closure).1 ≡ false
            → read_children by_id cb (suc fuel) bh pos (suc left) closure
              ≡ ok ((visit by_id cb x closure).0, leave none))
          e
          (λ h w.
            rw (read_children, read_ino-ok bh pos room, ==_false (load32 bh.b_data pos) 0 h, w)
              refl)
          h stop

  read_none :
      (fuel pos : ℕ) (bh : Buffer) (closure : C)
      → read_children by_id cb fuel bh pos 0 closure ≡ ok (closure, behind)
  unfolding read_children
  read_none zero pos bh closure = refl
  read_none (suc fuel) pos bh closure = refl

  -- Behind a child, the four bytes of its gap are passed over if another child follows.
  read_behind :
      (left fuel pos next : ℕ) (bh : Buffer) (closure : C)
      → pos + 4 ≡ next
      → load32 bh.b_data pos ≡ 0
      → next + left * 8 ≤ bh.b_size
      → read_children by_id cb (suc fuel) bh pos left closure
        ≡ read_children by_id cb fuel bh next left closure
  read_behind zero fuel pos next bh closure e gap room =
      read_none (suc fuel) pos bh closure ∙ sym (read_none fuel next bh closure)
  read_behind (suc left) fuel pos next bh closure e gap room =
      read_gap bh pos (omega arith) fuel left closure gap
      ∙ ap (λ p. read_children by_id cb fuel bh p (suc left) closure) e

  pub read_children-visits :
      (xs : List ℕ) (fuel pos : ℕ) (bh : Buffer) (closure : C)
      → Entries bh.b_data pos xs
      → pos + length xs * 8 ≤ bh.b_size
      → length xs * 2 ≤ fuel
      → read_children by_id cb fuel bh pos (length xs) closure ≡ ok (walked (visit_all xs closure))
  unfolding Entries length visit_all
  read_children-visits [] fuel pos bh closure is room enough = read_none fuel pos bh closure
  read_children-visits (x ∷ xs) zero pos bh closure is room enough = ground arith
  read_children-visits (x ∷ xs) (suc zero) pos bh closure is room enough = ground arith
  read_children-visits (x ∷ xs) (suc (suc fuel)) pos bh closure (here, nz, gap, rest) room enough =
      elim (Bool-cases (visit by_id cb x closure).1) [
        | inr stop ↦
            read_last bh pos (omega arith) (suc fuel) (length xs) x closure here nz stop
            ∙ rw (stop) refl
        | inl go ↦
            read_child bh pos (omega arith) (suc fuel) (length xs) x closure here nz go
            ∙ read_behind (length xs) fuel (pos + 4) (pos + 8) bh (visit by_id cb x closure).0
                (omega arith) gap (omega arith)
            ∙ read_children-visits xs fuel (pos + 8) bh (visit by_id cb x closure).0 rest
                (omega arith) (omega arith)
            ∙ rw (go) refl
      ]

  -- The blocks from one that is the last on.
  for_all_from-visits :
      (words fuel : ℕ) (dev : Device) (start : ℕ) (xs : List ℕ) (closure : C)
      → start ≢ 0
      → dev.readable start ≡ true
      → IsDirBlock (record { b_size = dev.block_size; b_data = dev.blocks start }) xs
      → length xs * 2 ≤ words
      → for_all_from by_id cb words (suc (suc fuel)) dev start closure
        ≡ ok ((visit_all xs closure).0, none)
  unfolding for_all_from sb_bread
  for_all_from-visits words fuel dev zero xs closure nz shown is enough = ground (arith, nz)
  for_all_from-visits words fuel dev (suc n) xs closure nz shown is enough =
      elim (Bool-cases (visit_all xs closure).1) [
        | inl go ↦
            rw
              (
                for_all_from,
                shown,
                parse_dir_block-IsDirBlock is,
                read_children-visits xs words 12 _ closure is.entries is.room enough,
                go,
              )
              refl
        | inr stop ↦
            rw
              (
                for_all_from,
                shown,
                parse_dir_block-IsDirBlock is,
                read_children-visits xs words 12 _ closure is.entries is.room enough,
                stop,
              )
              refl
      ]

  -- In a directory of one block, with words enough for the block and fuel for two blocks, the
  -- children are visited in the order in which they lie there, each once, up to the first where
  -- the callback says false; the result is 0.
  pub for_all_children-visits :
      (words fuel : ℕ) (dir : Dir) (xs : List ℕ) (closure : C)
      → IsDirectory dir xs
      → length xs * 2 ≤ words
      → for_all_children by_id cb words (suc (suc fuel)) dir closure
        ≡ ok ((visit_all xs closure).0, none)
  unfolding for_all_children
  for_all_children-visits words fuel dir xs closure is enough = rw (is.is_dir) (
      for_all_from-visits words fuel dir.dev dir.parent.start xs closure is.start is.readable
        is.block enough)
