-- ===== src/Dir/Closures.antt =====
-- What every visit of a child keeps of a closure, `spfs_for_all_children` keeps, whatever the
-- blocks of the directory hold.
use spfs.Base.{
  ℕ, zero, suc, Bool, not, ◌==◌, Bool-cases, inl, inr, Option, Option-cases, Res, Res-cases, ok,
  Returns, Returns-bind,
}
use spfs.Wire.{Buffer, read_ino}
use spfs.Device.{Device, sb_bread}
use spfs.Inode.{Failure}
use spfs.Dir.{
  Dir, parse_dir_block, s_isdir, Walk, behind, leave, visit, read_children, for_all_from,
  for_all_children,
}

module _ {I C : Type 0} (by_id : ℕ → Option I) (cb : C → I → C × Bool) (P : C → Type 0)
    (visit_keeps : (ino : ℕ) (closure : C) → P closure → P (visit by_id cb ino closure).0) where
  -- The closure beside a result.
  abbrev First : {R : Type 0} → C × R → Type 0
  First (closure, r) = P closure

  read_children_keeps :
      (fuel : ℕ) (bh : Buffer) (pos left : ℕ) (closure : C)
      → P closure
      → Returns First (read_children by_id cb fuel bh pos left closure)
  unfolding read_children
  read_children_keeps fuel bh pos zero closure p = p
  read_children_keeps zero bh pos (suc left) closure p = tt
  read_children_keeps (suc fuel) bh pos (suc left) closure p = elim (Res-cases (read_ino bh pos)) [
    | inl (word, e) ↦
        rw (read_children, e)
          (elim (Bool-cases (word.0 == 0)) [
            | inl skip ↦
                rw (read_children, skip) (read_children_keeps fuel bh word.1 (suc left) closure p)
            | inr child ↦
                rw (read_children, child)
                  (elim (Bool-cases (visit by_id cb word.0 closure).1) [
                    | inl on ↦
                        rw (read_children, on)
                          (read_children_keeps fuel bh word.1 left _ (visit_keeps word.0 closure p))
                    | inr stop ↦ rw (read_children, stop) (visit_keeps word.0 closure p)
                  ])
          ])
    | inr (inl (f, e)) ↦ rw (read_children, e) p
    | inr (inr (inl e)) ↦ rw (read_children, e) tt
    | inr (inr (inr e)) ↦ rw (read_children, e) tt
  ]

  behind_keeps :
      (rest : C → Res Failure (C × Option Failure))
      → ((closure : C) → P closure → Returns First (rest closure))
      → (end : C × Walk) → First end
      → Returns First (elim end.1 [ leave res ↦ ok (end.0, res) | behind ↦ rest end.0 ])
  behind_keeps rest keeps (closure, behind) p = keeps closure p
  behind_keeps rest keeps (closure, leave res) p = p

  for_all_from_keeps :
      (words fuel : ℕ) (dev : Device) (start : ℕ) (closure : C)
      → P closure
      → Returns First (for_all_from by_id cb words fuel dev start closure)
  unfolding for_all_from
  for_all_from_keeps words zero dev start closure p = tt
  for_all_from_keeps words (suc fuel) dev zero closure p = p
  for_all_from_keeps words (suc fuel) dev (suc n) closure p =
      elim (Option-cases (sb_bread dev (suc n))) [
        | inl e ↦ rw (for_all_from, e) p
        | inr (bh, e) ↦
            rw (for_all_from, e)
              (elim (Res-cases (parse_dir_block bh 0)) [
                | inl (parsed, e') ↦
                    rw (for_all_from, e')
                      (Returns-bind First First
                        (read_children by_id cb words bh parsed.1 parsed.0.children closure) _
                        (read_children_keeps words bh parsed.1 parsed.0.children closure p)
                        (behind_keeps _ (for_all_from_keeps words fuel dev parsed.0.next)))
                | inr (inl (f, e')) ↦ rw (for_all_from, e') p
                | inr (inr (inl e')) ↦ rw (for_all_from, e') tt
                | inr (inr (inr e')) ↦ rw (for_all_from, e') tt
              ])
      ]

  pub for_all_children_keeps :
      (words fuel : ℕ) (dir : Dir) (closure : C)
      → P closure
      → Returns First (for_all_children by_id cb words fuel dir closure)
  unfolding for_all_children
  for_all_children_keeps words fuel dir closure p =
      elim (Bool-cases (not (s_isdir dir.parent.i_mode))) [
        | inl other ↦ rw (for_all_children, other) p
        | inr is ↦
            rw (for_all_children, is)
              (for_all_from_keeps words fuel dir.dev dir.parent.start closure p)
      ]
