-- ===== src/System/Untouched.antt =====
-- The operations that write nothing: `spfs_lookup`, `spfs_iterate`, `spfs_read`.
use spfs.Base.{
  ℕ, Bool, ◌≡◌, refl, ap, ◌∙◌, inl, inr, none, some, Res, Res-cases, ok, ◌>>=◌, Returns,
  Returns-after, Returns-ok,
}
use spfs.Wire.{Bytes}
use spfs.Inode.{Failure}
use spfs.Tree
use spfs.Tree.Lookup.{Leaves, lookup-Leaves}
use spfs.Insert.{Tree}
use spfs.File.{OpenFile, read}
use spfs.File.Taken.{read_tree}
use spfs.Icache.{Live, Vfs, Pointer, at, Kernel, keep, inode_by_id}
use spfs.Icache.Numbers.{Iget-cases}
use spfs.Vfs.{Fuel, lookup, Entry, DirContext, iterate}
use spfs.System.Visits.{lookup_keeps, iterate_keeps}

-- The state beside a pointer has the tree.
abbrev IsAt : Tree → Pointer × Vfs → Type 0
IsAt tree (inode, vfs) = vfs.tree ≡ tree

module _ (kernel : Kernel) (frame : Bytes) where
  setup-tree :
      (tree : Tree) (vfs : Vfs) (n : ℕ) (r : Res Failure Live)
      → vfs.tree ≡ tree
      → Returns (IsAt tree) (r >>= λ live. ok (at n, keep vfs n live))
  unfolding keep
  setup-tree tree vfs n r same = Returns-after (IsAt tree) r _ (λ live. same)

  inode_by_id-tree :
      (tree : Tree) (probes levels : ℕ) (vfs : Vfs) (n : ℕ)
      → vfs.tree ≡ tree
      → Returns (IsAt tree) (inode_by_id kernel frame probes levels vfs n)
  unfolding inode_by_id
  inode_by_id-tree tree probes levels vfs n same =
      let leaves = lookup-Leaves frame probes levels vfs.tree.dev vfs.tree.start n in
      elim (Iget-cases (kernel.iget_locked vfs.cache n)) [
        | inl e ↦ rw (inode_by_id, e) same
        | inr (inl (live, e)) ↦ rw (inode_by_id, e) same
        | inr (inr (live, e)) ↦
            rw (inode_by_id, e)
              (elim (Res-cases (Tree.lookup frame probes levels vfs.tree.dev vfs.tree.start n)) [
                | inl ((dev, none), e') ↦ rw (e') (
                    ap (λ d. record vfs.tree { dev = d })
                      (Returns-ok (Leaves vfs.tree.dev) leaves e')
                    ∙ same)
                | inl ((dev, some inode), e') ↦ rw (e') (
                    setup-tree tree (record vfs { tree = record vfs.tree { dev = dev } }) n _
                      (ap (λ d. record vfs.tree { dev = d })
                          (Returns-ok (Leaves vfs.tree.dev) leaves e')
                        ∙ same))
                | inr (inl (f, e')) ↦ rw (e') same
                | inr (inr (inl e')) ↦ rw (e') tt
                | inr (inr (inr e')) ↦ rw (e') tt
              ])
      ]

  -- `spfs_lookup`, `spfs_iterate` and `spfs_read` write nothing, also through `spfs_btree_lookup`:
  -- where they return, the device, the list of free blocks and the start of the tree are as before,
  -- whatever the disk holds and whatever is asked.
  pub lookup-iterate-read_tree :
      (fuel : Fuel) (vfs : Vfs) (parent : ℕ) (name : Bytes) (dir_emit : DirContext → Entry → Bool)
      (dots : DirContext → DirContext × Bool) (ctx : DirContext) (blocks extents : ℕ)
      (file : OpenFile) (user : Bytes) (in_buf in_len ppos : ℕ)
      → Returns (λ out. out.0.tree ≡ vfs.tree) (lookup kernel frame fuel vfs parent name)
        × Returns
            (λ out. out.1.tree ≡ vfs.tree)
            (iterate kernel frame fuel dir_emit dots vfs parent ctx)
        × Returns (λ out. out.3.tree ≡ file.tree) (read blocks extents file user in_buf in_len ppos)
  lookup-iterate-read_tree fuel vfs parent name dir_emit dots ctx blocks extents file user in_buf
        in_len ppos =
      let keeps = inode_by_id-tree vfs.tree fuel.probes fuel.levels in
      let same : Vfs → Type 0 = λ v. v.tree ≡ vfs.tree in
      (
        lookup_keeps same kernel frame fuel keeps vfs parent refl name,
        iterate_keeps same kernel frame fuel keeps vfs parent refl dir_emit dots ctx,
        read_tree blocks extents file user in_buf in_len ppos,
      )
