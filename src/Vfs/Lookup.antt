-- ===== src/Vfs/Lookup.antt =====
-- The lookup of the first file by its name.
use spfs.Base.{
  ℕ, zero, suc, ◌+◌, ◌%◌, ◌^◌, ◌≤◌, ◌<◌, ◌≡◌, ◌≢◌, refl, true, arith, none, some, ok, ==_true,
  ==_false, [], ◌∷◌, ◌∙◌, ap, Bool, ◌==◌, Bool-cases, inl, inr,
}
use mathlib.Core.Path.{subst}
use spfs.Wire.{Bytes, copy}
use spfs.Device.{Device}
use spfs.FreeList.{FreeList}
use spfs.Super.{Super}
use spfs.Inode.{Inode, name_max}
use spfs.Dir.{visit}
use spfs.Dir.Entries.{length}
use spfs.Dir.Visits.{IsDirectory, visit_all, for_all_children-visits}
use spfs.File.{s_isreg}
use spfs.Icache.{Live, Cache, Vfs, Kernel, found, inode_by_id}
use spfs.Mount.Fresh.{treeless}
use spfs.Vfs.{
  Fuel, Name, Created, create, str_eq, by_name_cb, Visitor, visit_child, visit_children, lookup,
}
use spfs.Vfs.Steps.{called}
use spfs.Vfs.Ready.{granted, behind, IsReady, IsCreated, unnamed}
use spfs.Vfs.First.{create-first}

-- Two strings that agree up to the end of the second one, with room for it, are equal.
pub str_eq-same :
    (left : ℕ) (a b : Bytes) (k len : ℕ)
    → k ≤ len
    → len < k + left
    → ((q : ℕ) → q ≤ len → a q ≡ b q)
    → ((q : ℕ) → q < len → b q ≢ 0)
    → b len ≡ 0
    → str_eq left a b k ≡ ok true
unfolding str_eq
str_eq-same zero a b k len below room same inner end = absurd (omega arith)
str_eq-same (suc left) a b k len below room same inner end =
    let later : k < len → str_eq left a b (k + 1) ≡ ok true =
      λ h. str_eq-same left a b (k + 1) len (omega arith) (omega arith) same inner end in
    rw (str_eq, ==_true (a k) (b k) (same k below), same k below)
      (elim (Bool-cases (k == len)) [
        | inl e ↦ rw (==_true (b k) 0 (ap b (ground arith) ∙ end)) refl
        | inr e ↦ rw (==_false (b k) 0 (inner k (ground arith)), later (ground arith)) refl
      ])

-- A C string of `len` bytes, which fits the name of an inode.
pub record IsString (name : Name) : Type 0 where
  pub fits : name.len < name_max
  pub inner : (q : ℕ) → q < name.len → name.text q ≢ 0
  pub end : name.text name.len ≡ 0

called-text :
    (live : Live) (name : Name)
    → IsString name
    → (q : ℕ) → q ≤ name.len
    → (called live name).inode.name q ≡ name.text q
unfolding copy
called-text live name is q h = ground (arith, is.end)

by_name_cb-called :
    (live : Live) (name : Name) (n : ℕ)
    → IsString name
    → by_name_cb name.text none n (called live name).inode ≡ ok (some n, Bool.false)
unfolding by_name_cb
by_name_cb-called live name n is =
    rw
      (str_eq-same name_max (called live name).inode.name name.text 0 name.len (omega arith)
        (omega (arith, is.fits)) (called-text live name is) is.inner is.end)
      refl

-- An inode that the kernel has in memory is what the visitor is given.
module _ (kernel : Kernel) (frame : Bytes) (fuel : Fuel) (vfs : Vfs) (n : ℕ) (live : Live)
    (kept : vfs.cache n ≡ some live) (known : kernel.iget_locked vfs.cache n ≡ found live) where
  pub visit_child-kept :
      {C : Type 0} (visitor : Visitor kernel frame fuel C) (closure closure' : C) (go_on : Bool)
      → visitor closure n live.inode ≡ ok (closure', go_on)
      → visit_child kernel frame fuel visitor (ok (vfs, closure)) n ≡ (ok (vfs, closure'), go_on)
  unfolding visit_child inode_by_id
  visit_child-kept visitor closure closure' go_on says =
      rw (visit_child, inode_by_id, known, kept, says) refl

  -- A directory with one child, for which the callback ends the visits.
  visit_children-one :
      {C : Type 0} (visitor : Visitor kernel frame fuel C) (parent : Inode) (blocks : ℕ)
      (closure closure' : C)
      → IsDirectory (record { dev = vfs.tree.dev; free = vfs.tree.free; parent = parent }) (n ∷ [])
      → fuel.blocks ≡ suc (suc blocks)
      → 2 ≤ fuel.words
      → visitor closure n live.inode ≡ ok (closure', Bool.false)
      → visit_children kernel frame fuel visitor vfs parent closure ≡ ok (vfs, closure')
  unfolding visit_children visit_all visit length
  visit_children-one visitor parent blocks closure closure' is enough words says =
      rw
        (
          visit_children,
          enough,
          for_all_children-visits some (visit_child kernel frame fuel visitor) fuel.words blocks
              (record { dev = vfs.tree.dev; free = vfs.tree.free; parent = parent }) (n ∷ [])
              (ok (vfs, closure)) is words,
          visit_child-kept visitor closure closure' Bool.false says,
        )
        refl

module _ (kernel : Kernel) (super : Super) (dev : Device) (free : FreeList) (cache : Cache)
    (parent mode : ℕ) (folder live : Live)
    (is : IsReady kernel super dev free cache parent mode folder live)
    (known : (cache : Cache) (n : ℕ) (live : Live)
      → cache n ≡ some live
      → kernel.iget_locked cache n ≡ found live) where
  lookup-IsCreated :
      (frame : Bytes) (fuel : Fuel) (blocks : ℕ) (name : Name) (folder' child : Live)
      (made : Created)
      → fuel.blocks ≡ suc (suc blocks)
      → 2 ≤ fuel.words
      → super.id < 2 ^ 32
      → IsString name
      → IsCreated super dev (granted (behind free)) parent folder' (called child name) made
      → lookup kernel frame fuel made.vfs parent name.text ≡ ok (made.vfs, some super.id)
  unfolding lookup
  lookup-IsCreated frame fuel blocks name folder' child made enough words small text after =
      let cut : super.id % 2 ^ 32 ≡ super.id = omega arith in
      let listed =
        subst
          (λ m.
            IsDirectory
              (record {
                dev = made.vfs.tree.dev;
                free = made.vfs.tree.free;
                parent = folder'.inode;
              })
              (m ∷ []))
          cut after.listed in
      rw (
        lookup,
        after.held,
        visit_children-one kernel frame fuel made.vfs super.id (called child name) after.kept
            (known made.vfs.cache super.id (called child name) after.kept) (by_name_cb name.text)
            folder'.inode blocks none (some super.id) listed enough words
            (by_name_cb-called child name super.id text),
      )

  -- Where the first file of a file system is ready to be created, with the mode of a file, with a
  -- name that is a string of less than 256 bytes and with a number of at most 32 bits, and the
  -- kernel finds what it has in memory: `spfs_create` gives an inode to the dentry, and
  -- `spfs_lookup` of the name finds just that inode and changes nothing. The fuel is enough.
  pub lookup-create :
      (frame : Bytes) (fuel : Fuel) (blocks : ℕ) (name : Name)
      → fuel.blocks ≡ suc (suc blocks)
      → 2 ≤ fuel.words
      → super.id < 2 ^ 32
      → IsString name
      → s_isreg mode ≡ true
      → (made : Created) × (create kernel frame fuel
            (treeless super dev free cache)
            parent
            name
            mode
          ≡ ok made)
        × (made.res ≡ none)
        × (made.d_inode ≡ some super.id)
        × (lookup kernel frame fuel made.vfs parent name.text ≡ ok (made.vfs, some super.id))
  lookup-create frame fuel blocks name enough words small text reg =
      let (made, folder', done, after) =
        create-first kernel super dev free cache parent mode folder live is frame fuel (suc blocks)
          name enough reg (omega (arith, text.fits)) in
      (
        made,
        done,
        after.succeeded,
        after.entered,
        lookup-IsCreated frame fuel blocks name folder' (unnamed kernel folder live mode) made
            enough words small text after,
      )
