-- ===== src/Vfs/Second.antt =====
-- What can be made in a file system behind its first file.
use spfs.Base.{
  ℕ, suc, ◌%◌, ◌^◌, ◌+◌, ◌≤◌, ◌≡◌, ◌≢◌, refl, ◌∙◌, true, arith, Bool-cases, inl, inr, Option-cases,
  none, some, ok, err, bug, ltb-false, ==_true, ◌⊎◌,
}
use spfs.Wire.{Bytes, load32, copy}
use spfs.Device.{Device}
use spfs.FreeList.{FreeList}
use spfs.Super.{Super}
use spfs.Inode.{Inode, Failure, name_max, code, enomem}
use spfs.Tree
use spfs.Tree.Walk.{modify_empty}
use spfs.Insert.{Tree}
use spfs.Insert.Full.{insert_empty-stops}
use spfs.Dir.{s_isdir}
use spfs.File.{s_isreg}
use spfs.Icache.{Live, Ops, Cache, Vfs, error, at, Kernel, keep, owned, setup_inode_fp, new_inode}
use spfs.Icache.Numbers.{Iget-cases}
use spfs.Mount.Fresh.{treeless}
use spfs.Vfs.{Fuel, Name, Created, insert_named, generic_create, make_in, create, mkdir}
use spfs.Vfs.Ready.{granted, behind, IsReady}
use spfs.Vfs.First.{create-first}

-- A tree that starts at a block without entries.
pub record IsStuck (tree : Tree) : Type 0 where
  pub rooted : tree.start ≢ 0
  pub readable : tree.dev.readable tree.start ≡ true
  pub header : 4 ≤ tree.dev.block_size
  pub empty : load32 (tree.dev.blocks tree.start) 0 ≡ 0

setup_inode_fp-or_bug :
    (live : Live)
    → (setup_inode_fp live ≡ bug) ⊎ ((live' : Live) × (setup_inode_fp live ≡ ok live'))
unfolding setup_inode_fp
setup_inode_fp-or_bug live = elim (Bool-cases (s_isreg live.inode.i_mode)) [
  | inl reg ↦ inr (record live { ops = some Ops.file_ops }, rw reg refl)
  | inr other ↦ elim (Bool-cases (s_isdir live.inode.i_mode)) [
    | inl dir ↦
        inr (record live { ops = some Ops.dir_ops; nlink = live.nlink + 1 }, rw (other, dir) refl)
    | inr neither ↦ inl (rw (other, neither))
  ]
]

-- What one call gives: a BUG, an error pointer, or an inode in memory, with the same tree.
new_inode-outcomes :
    (kernel : Kernel) (vfs : Vfs) (parent : Inode) (mode : ℕ)
    → (new_inode kernel vfs (some parent) mode ≡ bug)
      ⊎ ((e : Failure) × (vfs' : Vfs) × (new_inode kernel vfs (some parent) mode
            ≡ ok (error e, vfs')))
      ⊎ ((n : ℕ) × (live : Live) × (vfs' : Vfs) × (new_inode kernel vfs (some parent) mode
            ≡ ok (at n, vfs'))
          × (vfs'.tree ≡ vfs.tree)
          × (vfs'.cache n ≡ some live))
unfolding new_inode keep
new_inode-outcomes kernel vfs parent mode =
    let n = vfs.super.id in
    let counted : Vfs = record vfs { super = record vfs.super { id = (n + 1) % 2 ^ 64 } } in
    elim (Iget-cases (kernel.iget_locked vfs.cache n)) [
      | inl e ↦ inr (inl (enomem, counted, rw (new_inode, e)))
      | inr (inl (live, e)) ↦ inr (inl (enomem, counted, rw (new_inode, e)))
      | inr (inr (live, e)) ↦
          let made : Live = record live {
            inode = record (owned kernel (some parent) mode live.inode) {
              i_ctime = kernel.current_time;
              i_atime = kernel.current_time;
              i_mtime = kernel.current_time;
            };
          } in
          elim (setup_inode_fp-or_bug made) [
            | inl e' ↦ inl (rw (new_inode, e, e'))
            | inr (live', e') ↦ inr (
                inr (
                  n,
                  live',
                  keep counted n live',
                  rw (new_inode, e, e') refl,
                  refl,
                  rw (==_true n n refl) refl,
                ))
          ]
    ]

module _ (kernel : Kernel) (frame : Bytes) (fuel : Fuel) (levels : ℕ)
    (enough : fuel.levels ≡ suc levels) (vfs : Vfs) (stuck : IsStuck vfs.tree) (parent : ℕ)
    (name : Name) (mode : ℕ) (short : name.len ≤ name_max) where
  insert_named-stuck :
      (vfs' : Vfs) (n : ℕ) (live : Live)
      → vfs'.tree ≡ vfs.tree
      → insert_named frame fuel vfs' n live name ≡ bug
  unfolding insert_named keep
  insert_named-stuck vfs' n live same =
      let named : Inode = record live.inode { name = copy (λ _. 0) 0 name.text name.len } in
      rw (
        same,
        enough,
        insert_empty-stops frame fuel.probes levels vfs.tree named stuck.rooted stuck.readable
            stuck.header stuck.empty,
      )

  generic_create-stuck :
      (folder : Inode) → generic_create kernel frame fuel vfs folder name mode ≡ bug
  unfolding generic_create
  generic_create-stuck folder =
      rw (ltb-false name_max name.len short) (elim (new_inode-outcomes kernel vfs folder mode) [
        | inl e ↦ rw e
        | inr (inl (_, _, e)) ↦ rw e
        | inr (inr (n, live, vfs', e, same, cached)) ↦
            rw (e, cached, insert_named-stuck vfs' n live same)
      ])

  make_in-stuck : (links : ℕ) → make_in kernel frame fuel links vfs parent name mode ≡ bug
  unfolding make_in
  make_in-stuck links = elim (Option-cases (vfs.cache parent)) [
    | inl e ↦ rw (make_in, e)
    | inr (live, e) ↦ rw (make_in, e, generic_create-stuck live.inode)
  ]

  pub create-stuck : create kernel frame fuel vfs parent name mode ≡ bug
  unfolding create
  create-stuck = elim (Bool-cases (s_isreg mode)) [
    | inl reg ↦ rw (create, reg, make_in-stuck 0)
    | inr other ↦ rw (create, other)
  ]

  pub mkdir-stuck : mkdir kernel frame fuel vfs parent name mode ≡ bug
  unfolding mkdir
  mkdir-stuck = elim (Bool-cases (s_isdir mode)) [
    | inl dir ↦ rw (mkdir, dir, make_in-stuck 1)
    | inr other ↦ rw (mkdir, other)
  ]

load32_clear : (m : Bytes) (p : ℕ) → ((q : ℕ) → m q ≡ 0) → load32 m p ≡ 0
unfolding load32
load32_clear m p clear = rw (clear p, clear (p + 1), clear (p + 2), clear (p + 3))

module _ (kernel : Kernel) (super : Super) (dev : Device) (free : FreeList) (cache : Cache)
    (parent mode : ℕ) (folder live : Live)
    (is : IsReady kernel super dev free cache parent mode folder live) where
  -- Where the first file of a file system is ready to be created, with a name of at most 256 bytes
  -- and the mode of a file, and where the second block that is granted is clear: `spfs_create`
  -- succeeds. But then the file system is full: any `spfs_create` and any `spfs_mkdir` with a name
  -- of at most 256 bytes is a BUG, in whatever directory, and no inode number is found in the tree,
  -- also that of the file. The fuel is enough.
  pub create-second :
      (frame : Bytes) (fuel : Fuel) (levels blocks : ℕ) (name : Name)
      → fuel.levels ≡ suc levels
      → fuel.blocks ≡ suc blocks
      → s_isreg mode ≡ true
      → name.len ≤ name_max
      → ((q : ℕ) → dev.blocks (granted (behind free)) q ≡ 0)
      → (parent' : ℕ) (name' : Name) (mode' ino : ℕ) → name'.len ≤ name_max
      → (made : Created) × (create kernel frame fuel
            (treeless super dev free cache)
            parent
            name
            mode
          ≡ ok made)
        × (made.res ≡ none)
        × (create kernel frame fuel made.vfs parent' name' mode' ≡ bug)
        × (mkdir kernel frame fuel made.vfs parent' name' mode' ≡ bug)
        × (Tree.lookup frame fuel.probes
              (suc (suc levels))
              made.vfs.tree.dev
              made.vfs.tree.start
              ino
            ≡ err (code 1))
  unfolding Tree.lookup
  create-second frame fuel levels blocks name deep enough reg short clear parent' name' mode' ino
        short' =
      let root = granted (behind free) in
      let (made, folder', done, after) =
        create-first kernel super dev free cache parent mode folder live is frame fuel blocks name
          enough reg short in
      let tree = made.vfs.tree in
      let untouched : (p : ℕ) → load32 (tree.dev.blocks tree.start) p ≡ 0 = λ p.
        load32_clear (tree.dev.blocks tree.start) p
          (λ q. rw (after.started) (after.untouched q ∙ clear q)) in
      let stuck : IsStuck tree = record {
        rooted = rw (after.started) is.root;
        readable = rw (after.readable) (is.readable tree.start);
        header = omega (arith, after.block_size, is.room);
        empty = untouched 0;
      } in
      (
        made,
        done,
        after.succeeded,
        create-stuck kernel frame fuel levels deep made.vfs stuck parent' name' mode' short',
        mkdir-stuck kernel frame fuel levels deep made.vfs stuck parent' name' mode' short',
        modify_empty frame Tree.lookup_cb fuel.probes levels tree.dev tree.start ino none
            stuck.rooted stuck.readable (omega (arith, after.block_size, is.room)) (untouched 0)
            (untouched 1604),
      )
