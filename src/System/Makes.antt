-- ===== src/System/Makes.antt =====
-- The operations that make inodes: `spfs_create`, `spfs_mkdir`.
use spfs.Base.{
  ℕ, ◌+◌, ◌≡◌, ap, ◌∙◌, Bool-cases, ltb, inl, inr, Option, Option-cases, some, Res-cases, not,
  Returns, Returns-bind, Returns-ok, refl,
}
use spfs.Wire.{Bytes, copy}
use spfs.Inode.{Inode, Failure, name_max}
use spfs.FreeList.{FreeList}
use spfs.FreeList.Served.{Served-trans}
use spfs.Insert.{insert}
use spfs.Insert.Taken.{TakenBy, insert-TakenBy}
use spfs.Dir.{Dir, s_isdir, add_child}
use spfs.Dir.Kept.{IsKept, add_child-IsKept}
use spfs.File.{s_isreg}
use spfs.Icache.{Live, Vfs, error, null, at, Kernel, keep, new_inode}
use spfs.Vfs.{
  Fuel, Name, Created, insert_named, generic_create, add_to, adopt, make_in, create, mkdir,
}
use spfs.System.Typed.{IsTyped, IsSound, Found, keep-IsSound, new_inode-IsSound}

-- The operations and the mode decide.
pub IsTyped-same :
    (live live' : Live)
    → live'.ops ≡ live.ops
    → live'.inode.i_mode ≡ live.inode.i_mode
    → IsTyped live
    → IsTyped live'
IsTyped-same live live' ops mode (inl (o, m)) = inl (ops ∙ o, ap s_isreg mode ∙ m)
IsTyped-same live live' ops mode (inr (o, m)) = inr (ops ∙ o, ap s_isdir mode ∙ m)

module _ (free : FreeList) where
  abbrev pub Made : Created → Type 0
  Made made = IsSound free made.vfs

  insert_named-IsSound :
      (frame : Bytes) (fuel : Fuel) (vfs : Vfs) (n : ℕ) (live : Live) (name : Name)
      → IsSound free vfs
      → IsTyped live
      → Returns Made (insert_named frame fuel vfs n live name)
  unfolding insert_named keep
  insert_named-IsSound frame fuel vfs n live name sound is =
      let inode : Inode = record live.inode { name = copy (λ _. 0) 0 name.text name.len } in
      let (all, taken) = sound in
      Returns-bind (TakenBy vfs.tree) Made (insert frame fuel.probes fuel.levels vfs.tree inode) _
        (insert-TakenBy frame fuel.probes fuel.levels vfs.tree inode)
        (λ left more.
          keep-IsSound free (record vfs { tree = left.tree }) n (record live { inode = inode })
            (all, Served-trans taken more)
            (IsTyped-same live (record live { inode = inode }) refl refl is))

  module _ (kernel : Kernel) (frame : Bytes) (fuel : Fuel) where
    generic_create-IsSound :
        (vfs : Vfs) (parent : Inode) (name : Name) (mode : ℕ)
        → IsSound free vfs
        → Returns Made (generic_create kernel frame fuel vfs parent name mode)
    unfolding generic_create
    generic_create-IsSound vfs parent name mode sound =
        let found = new_inode-IsSound free kernel vfs (some parent) mode sound in
        elim (Bool-cases (ltb name_max name.len)) [
          | inl long ↦ rw (generic_create, long) sound
          | inr fits ↦
              rw (generic_create, fits)
                (elim (Res-cases (new_inode kernel vfs (some parent) mode)) [
                  | inl ((error e, vfs'), got) ↦ rw (got) tt
                  | inl ((null, vfs'), got) ↦ rw (got) (Returns-ok (Found free) found got)
                  | inl ((at n, vfs'), got) ↦ rw (got) (elim (Option-cases (vfs'.cache n)) [
                    | inl gone ↦ rw (gone) tt
                    | inr (live, there) ↦ rw (there) (
                        insert_named-IsSound frame fuel vfs' n live name
                          (Returns-ok (Found free) found got)
                          ((Returns-ok (Found free) found got).0 n live there))
                  ])
                  | inr (inl (f, got)) ↦ rw (got) tt
                  | inr (inr (inl got)) ↦ rw (got) tt
                  | inr (inr (inr got)) ↦ rw (got) tt
                ])
        ]

  -- A state behind a result.
  abbrev Last : Option Failure × Vfs → Type 0
  Last (res, vfs) = IsSound free vfs

  add_to-IsSound :
      (fuel : Fuel) (vfs : Vfs) (parent : ℕ) (live : Live) (child : ℕ)
      → IsSound free vfs
      → IsTyped live
      → Returns Last (add_to fuel vfs parent live child)
  unfolding add_to keep
  add_to-IsSound fuel vfs parent live child sound is =
      let dir : Dir = record { dev = vfs.tree.dev; free = vfs.tree.free; parent = live.inode } in
      let (all, taken) = sound in
      Returns-bind (λ out. IsKept live.inode.i_mode free out.1) Last
        (add_child fuel.blocks dir child) _
        (add_child-IsKept live.inode.i_mode free fuel.blocks dir child (refl, taken))
        (λ (res, dir') (same, more).
          keep-IsSound free
            (record vfs { tree = record vfs.tree { dev = dir'.dev; free = dir'.free } }) parent
            (record live { inode = dir'.parent }) (all, more)
            (IsTyped-same live (record live { inode = dir'.parent }) refl same is))

  adopt-IsSound :
      (fuel : Fuel) (parent links : ℕ) (made : Created)
      → IsSound free made.vfs
      → Returns Made (adopt fuel parent links made)
  unfolding adopt
  adopt-IsSound fuel parent links made sound = elim (Option-cases made.res) [
    | inr (e, failed) ↦ rw (adopt, failed) sound
    | inl done ↦
        rw (adopt, done)
          (elim (Option-cases made.d_inode) [
            | inl gone ↦ rw (gone) tt
            | inr (n, there) ↦ rw (there) (elim (Option-cases (made.vfs.cache parent)) [
              | inl lost ↦ rw (lost) tt
              | inr (live, kept) ↦ rw (kept) (
                  Returns-bind Last Made
                    (add_to fuel made.vfs parent (record live { nlink = live.nlink + links }) n) _
                    (add_to-IsSound fuel made.vfs parent
                      (record live { nlink = live.nlink + links }) n sound
                      (IsTyped-same live (record live { nlink = live.nlink + links }) refl refl
                        (sound.0 parent live kept)))
                    (λ (res, vfs') p. p))
            ])
          ])
  ]

  module _ (kernel : Kernel) (frame : Bytes) (fuel : Fuel) (vfs : Vfs) (parent : ℕ) (name : Name)
      (mode : ℕ) (sound : IsSound free vfs) where
    make_in-IsSound :
        (links : ℕ) → Returns Made (make_in kernel frame fuel links vfs parent name mode)
    unfolding make_in
    make_in-IsSound links = elim (Option-cases (vfs.cache parent)) [
      | inl gone ↦ rw (make_in, gone) tt
      | inr (live, there) ↦
          rw (make_in, there)
            (Returns-bind Made Made (generic_create kernel frame fuel vfs live.inode name mode) _
              (generic_create-IsSound kernel frame fuel vfs live.inode name mode sound)
              (adopt-IsSound fuel parent links))
    ]

    pub create-IsSound : Returns Made (create kernel frame fuel vfs parent name mode)
    unfolding create
    create-IsSound = elim (Bool-cases (not (s_isreg mode))) [
      | inl other ↦ rw (create, other) tt
      | inr is ↦ rw (create, is) (make_in-IsSound 0)
    ]

    pub mkdir-IsSound : Returns Made (mkdir kernel frame fuel vfs parent name mode)
    unfolding mkdir
    mkdir-IsSound = elim (Bool-cases (not (s_isdir mode))) [
      | inl other ↦ rw (mkdir, other) tt
      | inr is ↦ rw (mkdir, is) (make_in-IsSound 1)
    ]
