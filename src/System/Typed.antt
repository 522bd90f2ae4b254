-- ===== src/System/Typed.antt =====
-- The table of operations of each inode in memory.
use spfs.Base.{
  Res-cases, Returns, Returns-bind, ℕ, ◌≡◌, ◌⊎◌, inl, inr, true, Bool-cases, arith, Option, none,
  some, ◌==◌,
}
use mathlib.Core.Path.{subst}
use mathlib.Core.Option.{some-injective}
use spfs.Wire.{Bytes}
use spfs.Inode.{Inode}
use spfs.FreeList.{FreeList}
use spfs.FreeList.Served.{Served}
use spfs.Tree.{lookup}
use spfs.Dir.{s_isdir}
use spfs.File.{s_isreg}
use spfs.Icache.{
  Live, Ops, Cache, Vfs, Pointer, Kernel, keep, setup_inode_fp, new_inode, inode_by_id,
}
use spfs.Icache.Numbers.{Iget-cases}

-- The inode has the operations of files and is a regular file, or those of directories and is one.
abbrev pub IsTyped : Live → Type 0
IsTyped live =
    ((live.ops ≡ some Ops.file_ops) × (s_isreg live.inode.i_mode ≡ true))
    ⊎ ((live.ops ≡ some Ops.dir_ops) × (s_isdir live.inode.i_mode ≡ true))

-- Every inode in memory.
abbrev pub AllTyped : Cache → Type 0
AllTyped cache = (n : ℕ) (live : Live) → cache n ≡ some live → IsTyped live

keep-AllTyped :
    (vfs : Vfs) (n : ℕ) (live : Live)
    → AllTyped vfs.cache
    → IsTyped live
    → AllTyped (keep vfs n live).cache
unfolding keep
keep-AllTyped vfs n live all is k live' e = elim (Bool-cases (k == n)) [
  | inl here ↦ subst IsTyped (some-injective live live' (rw here at e)) is
  | inr other ↦ all k live' (rw other at e)
]

-- The operations are set by the mode.
pub setup_inode_fp-IsTyped : (live : Live) → Returns IsTyped (setup_inode_fp live)
unfolding setup_inode_fp
setup_inode_fp-IsTyped live = ground arith

-- Beside it, the free list is what is left of `free`.
module _ (free : FreeList) where
  abbrev pub IsSound : Vfs → Type 0
  IsSound vfs = AllTyped vfs.cache × Served free vfs.tree.free

  pub keep-IsSound :
      (vfs : Vfs) (n : ℕ) (live : Live) → IsSound vfs → IsTyped live → IsSound (keep vfs n live)
  unfolding keep
  keep-IsSound vfs n live (all, taken) is = (keep-AllTyped vfs n live all is, taken)

  -- What `spfs_new_inode` and `spfs_inode_by_id` return.
  abbrev pub Found : Pointer × Vfs → Type 0
  Found (inode, vfs) = IsSound vfs

  pub new_inode-IsSound :
      (kernel : Kernel) (vfs : Vfs) (parent : Option Inode) (mode : ℕ)
      → IsSound vfs
      → Returns Found (new_inode kernel vfs parent mode)
  unfolding new_inode
  new_inode-IsSound kernel vfs parent mode sound =
      elim (Iget-cases (kernel.iget_locked vfs.cache vfs.super.id)) [
        | inl e ↦ rw (new_inode, e) sound
        | inr (inl (live, e)) ↦ rw (new_inode, e) sound
        | inr (inr (live, e)) ↦
            rw (new_inode, e)
              (Returns-bind IsTyped Found (setup_inode_fp _) _ (setup_inode_fp-IsTyped _)
                (λ live' is. keep-IsSound _ _ live' sound is))
      ]

  pub inode_by_id-IsSound :
      (kernel : Kernel) (frame : Bytes) (probes fuel : ℕ) (vfs : Vfs) (n : ℕ)
      → IsSound vfs
      → Returns Found (inode_by_id kernel frame probes fuel vfs n)
  unfolding inode_by_id
  inode_by_id-IsSound kernel frame probes fuel vfs n sound =
      elim (Iget-cases (kernel.iget_locked vfs.cache n)) [
        | inl e ↦ rw (inode_by_id, e) sound
        | inr (inl (live, e)) ↦ rw (inode_by_id, e) sound
        | inr (inr (live, e)) ↦
            rw (inode_by_id, e)
              (elim (Res-cases (lookup frame probes fuel vfs.tree.dev vfs.tree.start n)) [
                | inl ((dev, none), e') ↦ rw (e') sound
                | inl ((dev, some inode), e') ↦ rw (e') (
                    Returns-bind IsTyped Found (setup_inode_fp _) _ (setup_inode_fp-IsTyped _)
                      (λ live' is. keep-IsSound _ n live' sound is))
                | inr (inl (f, e')) ↦ rw (e') sound
                | inr (inr (inl e')) ↦ rw (e') tt
                | inr (inr (inr e')) ↦ rw (e') tt
              ])
      ]
