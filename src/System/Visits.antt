-- ===== src/System/Visits.antt =====
-- The operations that go over a directory put inodes into the memory: `spfs_lookup`,
-- `spfs_iterate`.
use spfs.Base.{
  ℕ, Bool, not, leb, ◌+◌, ◌%◌, ◌^◌, Bool-cases, inl, inr, Option, Option-cases, none, some, Res,
  Res-cases, ok, err, bug, out_of_fuel, Returns, Returns-bind, Returns-ok,
}
use spfs.Wire.{Bytes}
use spfs.Inode.{Inode, Failure}
use spfs.Dir.{for_all_children, visit}
use spfs.Dir.Closures.{for_all_children_keeps}
use spfs.Icache.{Vfs, error, null, at, Kernel, inode_by_id}
use spfs.Vfs.{
  Fuel, Visitor, visit_child, visit_children, by_name_cb, lookup, Entry, DirContext, iterate_cb,
  iterate,
}

-- `P` is what the lookup of an inode by its number keeps of the state.
module _ (P : Vfs → Type 0) (kernel : Kernel) (frame : Bytes) (fuel : Fuel)
    (by_id_keeps : (vfs : Vfs) (n : ℕ)
      → P vfs
      → Returns (λ out. P out.1) (inode_by_id kernel frame fuel.probes fuel.levels vfs n)) where
  -- A state beside a result.
  abbrev pub Kept : {R : Type 0} → Vfs × R → Type 0
  Kept (vfs, r) = P vfs

  module _ {C : Type 0} (visitor : Visitor kernel frame fuel C) where
    visit_child_keeps :
        (ino : ℕ) (left : Res Failure (Vfs × C))
        → Returns Kept left
        → Returns Kept (visit_child kernel frame fuel visitor left ino).0
    unfolding visit_child
    visit_child_keeps ino (err e) sound = tt
    visit_child_keeps ino bug sound = tt
    visit_child_keeps ino out_of_fuel sound = tt
    visit_child_keeps ino (ok (vfs, closure)) sound =
        let found = by_id_keeps vfs ino sound in
        elim (Res-cases (inode_by_id kernel frame fuel.probes fuel.levels vfs ino)) [
          | inl ((error e, vfs'), got) ↦
              rw (visit_child, got) (Returns-ok (λ out. P out.1) found got)
          | inl ((null, vfs'), got) ↦ rw (visit_child, got) tt
          | inl ((at n, vfs'), got) ↦
              rw (visit_child, got)
                (elim (Option-cases (vfs'.cache n)) [
                  | inl gone ↦ rw (visit_child, gone) tt
                  | inr (live, there) ↦
                      rw (visit_child, there)
                        (elim (Res-cases (visitor closure n live.inode)) [
                          | inl (left, said) ↦
                              rw (visit_child, said) (Returns-ok (λ out. P out.1) found got)
                          | inr (inl (e, said)) ↦ rw (visit_child, said) tt
                          | inr (inr (inl said)) ↦ rw (visit_child, said) tt
                          | inr (inr (inr said)) ↦ rw (visit_child, said) tt
                        ])
                ])
          | inr (inl (e, got)) ↦ rw (visit_child, got) tt
          | inr (inr (inl got)) ↦ rw (visit_child, got) tt
          | inr (inr (inr got)) ↦ rw (visit_child, got) tt
        ]

    pub visit_children_keeps :
        (vfs : Vfs) (parent : Inode) (closure : C)
        → P vfs
        → Returns Kept (visit_children kernel frame fuel visitor vfs parent closure)
    unfolding visit_children visit
    visit_children_keeps vfs parent closure sound =
        Returns-bind (λ end. Returns Kept end.0) Kept
          (for_all_children some (visit_child kernel frame fuel visitor) fuel.words fuel.blocks
            (record { dev = vfs.tree.dev; free = vfs.tree.free; parent = parent })
            (ok (vfs, closure)))
          _
          (for_all_children_keeps some (visit_child kernel frame fuel visitor) (Returns Kept)
            (λ ino left p. visit_child_keeps ino left p) fuel.words fuel.blocks _
            (ok (vfs, closure)) sound)
          (λ (left, res) p. p)

  module _ (vfs : Vfs) (parent : ℕ) (sound : P vfs) where
    pub lookup_keeps : (name : Bytes) → Returns Kept (lookup kernel frame fuel vfs parent name)
    unfolding lookup
    lookup_keeps name = elim (Option-cases (vfs.cache parent)) [
      | inl gone ↦ rw (lookup, gone) tt
      | inr (live, there) ↦
          rw (lookup, there) (visit_children_keeps (by_name_cb name) vfs live.inode none sound)
    ]

    -- The state stands between the result and the context.
    abbrev pub Between : Option Failure × Vfs × DirContext → Type 0
    Between (res, vfs', ctx) = P vfs'

    pub iterate_keeps :
        (dir_emit : DirContext → Entry → Bool) (dots : DirContext → DirContext × Bool)
        (ctx : DirContext)
        → Returns Between (iterate kernel frame fuel dir_emit dots vfs parent ctx)
    unfolding iterate
    iterate_keeps dir_emit dots ctx = elim (Option-cases (vfs.cache parent)) [
      | inl gone ↦ rw (iterate, gone) tt
      | inr (live, there) ↦
          rw (iterate, there)
            (elim (Bool-cases (not (dots ctx).1)) [
              | inl full ↦ rw (iterate, full) sound
              | inr room ↦
                  rw (iterate, room)
                    (elim (Bool-cases (leb ((live.inode.capacity + 2) % 2 ^ 32) (dots ctx).0.pos)) [
                      | inl behind ↦ rw (iterate, behind) sound
                      | inr within ↦
                          rw (iterate, within)
                            (Returns-bind Kept Between
                              (visit_children kernel frame fuel
                                (iterate_cb kernel frame fuel dir_emit) vfs live.inode
                                ((dots ctx).0, 2))
                              _ (visit_children_keeps _ vfs live.inode _ sound)
                              (λ (vfs', left) p. p))
                    ])
            ])
    ]
