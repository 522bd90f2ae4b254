-- ===== src/Vfs/Iterate.antt =====
-- What `spfs_iterate` emits.
use spfs.Base.{
  ◌<◌, ◌%◌, ◌^◌, ◌>>=◌, ℕ, zero, suc, ◌+◌, ◌-◌, ◌≤◌, ◌≡◌, refl, true, false, arith, Bool, none,
  some, ok, Res, List, [], ◌∷◌, if◌then◌else◌, Bool-cases, inl, inr, ◌∙◌, ap, leb,
}
use spfs.Wire.{Bytes}
use spfs.Inode.{Inode, Failure}
use spfs.Dir.{Dir, visit}
use spfs.Dir.Entries.{length}
use spfs.Dir.Visits.{visit_all}
use spfs.Dir.Chains.{IsFolder, for_all_children-IsFolder}
use spfs.Icache.{Live, Vfs, Kernel}
use spfs.Vfs.{Fuel, Entry, DirContext, iterate_cb, visit_child, visit_children, iterate}
use spfs.Vfs.Lookup.{visit_child-kept}
use spfs.Vfs.Emit.{
  Kid, IsKid, AllKids, inos, entry_of, drop, drop-all, emit_all, iterate_cb-emits, iterate_cb-skips,
  visit_all-goes, visit_all-stops,
}

module _ (kernel : Kernel) (frame : Bytes) (fuel : Fuel) (dir_emit : DirContext → Entry → Bool)
    (vfs : Vfs) where
  abbrev emitter :
      Res Failure (Vfs × (DirContext × ℕ)) → ℕ → Res Failure (Vfs × (DirContext × ℕ)) × Bool
  emitter = visit_child kernel frame fuel (iterate_cb kernel frame fuel dir_emit)

  -- The visits from a state of the callback on.
  abbrev visits : List Kid → DirContext → ℕ → Res Failure (Vfs × (DirContext × ℕ))
  visits kids ctx pos =
      (visit_all some (visit_child kernel frame fuel (iterate_cb kernel frame fuel dir_emit))
        (inos kids) (ok (vfs, (ctx, pos)))).0

  visit_child-emits :
      (kid : Kid) (ctx : DirContext) (pos : ℕ) (room : Bool)
      → IsKid kernel vfs.cache kid
      → pos ≡ ctx.pos
      → dir_emit ctx (entry_of kid) ≡ room
      → visit_child kernel frame fuel
          (iterate_cb kernel frame fuel dir_emit)
          (ok (vfs, (ctx, pos)))
          kid.ino
        ≡ (
          ok (
            vfs,
            (
              if room
                  then record { pos = ctx.pos + 1; emitted = entry_of kid ∷ ctx.emitted }
                  else ctx,
              pos + 1,
            ),
          ),
          room,
        )
  visit_child-emits kid ctx pos room is here says =
      visit_child-kept kernel frame fuel vfs kid.ino kid.live is.kept is.known
        (iterate_cb kernel frame fuel dir_emit) (ctx, pos) _ room
        (iterate_cb-emits kernel frame fuel dir_emit ctx pos vfs.cache kid room is here says)

  visits-emit :
      (kids : List Kid) (ctx : DirContext) (pos : ℕ)
      → AllKids kernel vfs.cache kids
      → pos ≡ ctx.pos
      → (pos' : ℕ) × (visits kids ctx pos ≡ ok (vfs, (emit_all dir_emit ctx kids, pos')))
  unfolding visit_all visit
  visits-emit [] ctx pos all here = (pos, refl)
  visits-emit (kid ∷ kids) ctx pos (is, all) here =
      let next : DirContext = record { pos = ctx.pos + 1; emitted = entry_of kid ∷ ctx.emitted } in
      let (pos', later) = visits-emit kids next (pos + 1) all (omega (arith, here)) in
      elim (Bool-cases (dir_emit ctx (entry_of kid))) [
        | inl e ↦ (
          pos',
          rw (e) (
              ap (λ r. r.0)
                (visit_all-goes emitter (ok (vfs, (ctx, pos))) kid.ino (inos kids)
                  (visit_child-emits kid ctx pos true is here e))
              ∙ later),
        )
        | inr e ↦ (
          pos + 1,
          rw (e) (
              ap (λ r. r.0)
                (visit_all-stops emitter (ok (vfs, (ctx, pos))) kid.ino (inos kids)
                  (visit_child-emits kid ctx pos false is here e))),
        )
      ]

  -- The first `n` entries are before the position of the context.
  visits-skip :
      (n : ℕ) (kids : List Kid) (ctx : DirContext) (pos : ℕ)
      → AllKids kernel vfs.cache kids
      → pos + n ≡ ctx.pos
      → (pos' : ℕ) × (visits kids ctx pos ≡ ok (vfs, (emit_all dir_emit ctx (drop n kids), pos')))
  unfolding visit_all visit
  visits-skip zero kids ctx pos all there = visits-emit kids ctx pos all (omega (arith, there))
  visits-skip (suc n) [] ctx pos all there = (pos, refl)
  visits-skip (suc n) (kid ∷ kids) ctx pos (is, all) there =
      let (pos', later) = visits-skip n kids ctx (pos + 1) all (omega (arith, there)) in
      (
        pos',
        ap (λ r. r.0)
              (visit_all-goes emitter (ok (vfs, (ctx, pos))) kid.ino (inos kids) (
                visit_child-kept kernel frame fuel vfs kid.ino kid.live is.kept is.known
                  (iterate_cb kernel frame fuel dir_emit) (ctx, pos) (ctx, pos + 1) true
                  (iterate_cb-skips kernel frame fuel dir_emit ctx pos vfs.cache kid is
                    (omega (arith, there)))))
            ∙ later,
      )

  visit_children-emits :
      (parent : Inode) (blocks : List (List ℕ)) (n : ℕ) (kids : List Kid) (ctx : DirContext)
      → AllKids kernel vfs.cache kids
      → IsFolder
          (record { dev = vfs.tree.dev; free = vfs.tree.free; parent = parent })
          fuel.words
          fuel.blocks
          blocks
          (inos kids)
      → 2 + n ≡ ctx.pos
      → (pos' : ℕ) × (visit_children kernel frame fuel
            (iterate_cb kernel frame fuel dir_emit)
            vfs
            parent
            (ctx, 2)
          ≡ ok (vfs, (emit_all dir_emit ctx (drop n kids), pos')))
  unfolding visit_children
  visit_children-emits parent blocks n kids ctx all is there =
      let dir : Dir = record { dev = vfs.tree.dev; free = vfs.tree.free; parent = parent } in
      let (pos', seen) = visits-skip n kids ctx 2 all there in
      (
        pos',
        ap (λ r. r >>= λ both. both.0)
              (for_all_children-IsFolder some emitter blocks fuel.words fuel.blocks dir (inos kids)
                (ok (vfs, (ctx, 2))) is)
            ∙ seen,
      )

  -- In a directory in memory with its children in any number of blocks, all of them in memory with
  -- names that are strings, fewer than 2 ^ 32 - 2 of them, with a capacity that counts them, and
  -- with fuel enough for the blocks: `spfs_iterate` from a position behind the two dots passes
  -- over as many children as the position is further, and emits the others, in the order of the
  -- directory, until there is no room for one.
  pub iterate-emits :
      (dots : DirContext → DirContext × Bool) (parent : ℕ) (folder : Live) (blocks : List (List ℕ))
      (kids : List Kid) (ctx : DirContext)
      → vfs.cache parent ≡ some folder
      → IsFolder
          (record { dev = vfs.tree.dev; free = vfs.tree.free; parent = folder.inode })
          fuel.words
          fuel.blocks
          blocks
          (inos kids)
      → folder.inode.capacity ≡ length kids
      → length kids + 2 < 2 ^ 32
      → AllKids kernel vfs.cache kids
      → (dots ctx).1 ≡ true
      → 2 ≤ (dots ctx).0.pos
      → iterate kernel frame fuel dir_emit dots vfs parent ctx
        ≡ ok (none, vfs, emit_all dir_emit (dots ctx).0 (drop ((dots ctx).0.pos - 2) kids))
  unfolding iterate
  iterate-emits dots parent folder blocks kids ctx cached is counted few all room past =
      let here = (dots ctx).0 in
      let (pos', seen) =
        visit_children-emits folder.inode blocks (here.pos - 2) kids here all is
          (omega (arith, past)) in
      elim (Bool-cases (leb ((folder.inode.capacity + 2) % 2 ^ 32) here.pos)) [
        | inl e ↦
            rw
              (
                iterate,
                cached,
                room,
                e,
                drop-all (here.pos - 2) kids (ground (arith, e, few, counted)),
              )
              refl
        | inr e ↦ rw (iterate, cached, room, e, seen) refl
      ]
