-- ===== src/Icache/Numbers.antt =====
-- The numbers that `spfs_new_inode` gives.
use spfs.Base.{
  ℕ, suc, ◌+◌, ◌/◌, ◌%◌, ◌^◌, ◌≤◌, ◌<◌, ◌≡◌, ◌⊎◌, inl, inr, refl, true, false, Bool-cases, arith,
  Option, none, some, Res, ok, ◌>>=◌, List, [], ◌∷◌,
}
use spfs.Inode.{Inode, Failure, enomem}
use spfs.Dir.{s_isdir}
use spfs.File.{s_isreg}
use spfs.Dir.Entries.{length}
use spfs.Icache.{
  Live, Ops, Vfs, Pointer, error, at, Iget, failed, found, fresh, Kernel, keep, owned,
  setup_inode_fp, new_inode,
}

-- Inodes that are made one after the other, each with its parent and its mode: the numbers of those
-- that were made, and the state behind the last one.
pub new_inodes : Kernel → Vfs → List (Option Inode × ℕ) → Res Failure (List ℕ × Vfs)
new_inodes kernel vfs [] = ok ([], vfs)
new_inodes kernel vfs ((parent, mode) ∷ asked) = do
  (inode, vfs) ← new_inode kernel vfs parent mode
  (numbers, vfs) ← new_inodes kernel vfs asked
  ok (elim inode [ at n ↦ n ∷ numbers | _ ↦ numbers ], vfs)

-- Numbers from `low` on and below `high`, each greater than the one before.
abbrev pub IsIncreasing : (low high : ℕ) → List ℕ → Type 0
IsIncreasing low high [] = low ≤ high
IsIncreasing low high (n ∷ ns) = (low ≤ n) × IsIncreasing (suc n) high ns

-- What one call gives, if it returns: an error, or the next number. The counter goes on.
new_inode-cases :
    (kernel : Kernel) (vfs : Vfs) (parent : Option Inode) (mode : ℕ) (inode : Pointer) (vfs' : Vfs)
    → new_inode kernel vfs parent mode ≡ ok (inode, vfs')
    → ((inode ≡ error enomem) ⊎ (inode ≡ at vfs.super.id))
      × (vfs'.super.id ≡ (vfs.super.id + 1) % 2 ^ 64)
unfolding new_inode keep
new_inode-cases kernel vfs parent mode inode vfs' e = ground arith

-- The modes of a file and of a directory, which are those that the driver makes inodes with.
abbrev pub IsMode : ℕ → Type 0
IsMode mode = (s_isreg mode ≡ true) ⊎ (s_isdir mode ≡ true)

abbrev pub AllModes : List (Option Inode × ℕ) → Type 0
AllModes [] = Unit {0}
AllModes ((parent, mode) ∷ asked) = IsMode mode × AllModes asked

pub dir_not_file : (mode : ℕ) → s_isdir mode ≡ true → s_isreg mode ≡ false
unfolding s_isdir s_isreg
dir_not_file mode dir = ground arith

setup_inode_fp-ok :
    (live : Live) → IsMode live.inode.i_mode → (live' : Live) × (setup_inode_fp live ≡ ok live')
unfolding setup_inode_fp
setup_inode_fp-ok live (inl reg) = (record live { ops = some Ops.file_ops }, rw reg)
setup_inode_fp-ok live (inr dir) = elim (Bool-cases (s_isreg live.inode.i_mode)) [
  | inl reg ↦ (record live { ops = some Ops.file_ops }, rw reg)
  | inr other ↦ (record live { ops = some Ops.dir_ops; nlink = live.nlink + 1 }, rw (other, dir))
]

-- The type of an inode is what its mode has behind the lowest twelve bits.
IsMode-type : (mode mode' : ℕ) → mode' / 2 ^ 12 ≡ mode / 2 ^ 12 → IsMode mode → IsMode mode'
unfolding s_isreg s_isdir
IsMode-type mode mode' same (inl reg) = inl (rw (same) reg)
IsMode-type mode mode' same (inr dir) = inr (rw (same) dir)

pub Iget-cases :
    (got : Iget)
    → (got ≡ failed) ⊎ ((live : Live) × (got ≡ found live)) ⊎ ((live : Live) × (got ≡ fresh live))
Iget-cases failed = inl refl
Iget-cases (found live) = inr (inl (live, refl))
Iget-cases (fresh live) = inr (inr (live, refl))

module _ (kernel : Kernel)
    (keeps : (inode parent : Inode) (mode : ℕ)
      → (kernel.inode_init_owner inode parent mode).i_mode / 2 ^ 12 ≡ mode / 2 ^ 12) where
  owned-mode :
      (parent : Option Inode) (mode : ℕ) (inode : Inode)
      → (owned kernel parent mode inode).i_mode / 2 ^ 12 ≡ mode / 2 ^ 12
  unfolding owned
  owned-mode none mode inode = refl
  owned-mode (some parent) mode inode = keeps inode parent mode

  new_inode-ok :
      (vfs : Vfs) (parent : Option Inode) (mode : ℕ)
      → IsMode mode
      → (inode : Pointer) × (vfs' : Vfs) × (new_inode kernel vfs parent mode ≡ ok (inode, vfs'))
  unfolding new_inode
  new_inode-ok vfs parent mode valid =
      let counted : Vfs = record vfs {
        super = record vfs.super { id = (vfs.super.id + 1) % 2 ^ 64 };
      } in
      elim (Iget-cases (kernel.iget_locked vfs.cache vfs.super.id)) [
        | inl e ↦ (error enomem, counted, rw (new_inode, e))
        | inr (inl (live, e)) ↦ (error enomem, counted, rw (new_inode, e))
        | inr (inr (live, e)) ↦
            let made : Live = record live {
              inode = record (owned kernel parent mode live.inode) {
                i_ctime = kernel.current_time;
                i_atime = kernel.current_time;
                i_mtime = kernel.current_time;
              };
            } in
            let (live', set) =
              setup_inode_fp-ok made
                (IsMode-type mode made.inode.i_mode (owned-mode parent mode live.inode) valid) in
            (at vfs.super.id, keep counted vfs.super.id live', rw (new_inode, e, set))
      ]

  IsIncreasing-le :
      (low low' high : ℕ) (ns : List ℕ)
      → low ≤ low'
      → IsIncreasing low' high ns
      → IsIncreasing low high ns
  IsIncreasing-le low low' high [] h is = omega arith
  IsIncreasing-le low low' high (n ∷ ns) h is = (omega arith, is.1)

  -- Inodes are made with the modes of files and directories, as many as there are numbers of 64
  -- bits left, and `inode_init_owner` keeps the type of the inode that the mode has in its bits
  -- from 12 on: every call returns, with an inode or an error. The numbers of those that were made
  -- are each greater than the one before, none is below the counter of the super block, and the
  -- counter goes past all of them, by one for each call.
  pub new_inodes-IsIncreasing :
      (vfs : Vfs) (asked : List (Option Inode × ℕ))
      → AllModes asked
      → vfs.super.id + length asked < 2 ^ 64
      → (numbers : List ℕ) × (vfs' : Vfs) × (new_inodes kernel vfs asked ≡ ok (numbers, vfs'))
        × IsIncreasing vfs.super.id vfs'.super.id numbers
        × (vfs'.super.id ≡ vfs.super.id + length asked)
  unfolding new_inodes length
  new_inodes-IsIncreasing vfs [] all room = ([], vfs, refl, omega arith, omega arith)
  new_inodes-IsIncreasing vfs ((parent, mode) ∷ asked) (valid, all) room =
      let (inode, vfs1, made) = new_inode-ok vfs parent mode valid in
      let (which, counted) = new_inode-cases kernel vfs parent mode inode vfs1 made in
      let next : vfs1.super.id ≡ vfs.super.id + 1 = omega (arith, counted) in
      let (numbers, vfs2, rest, up, total) =
        new_inodes-IsIncreasing vfs1 asked all (omega (arith, next)) in
      elim which [
        | inl e ↦ (
          numbers,
          vfs2,
          rw (made, rest, e),
          IsIncreasing-le vfs.super.id vfs1.super.id vfs2.super.id numbers (omega (arith, next)) up,
          omega (arith, next, total),
        )
        | inr e ↦ (
          vfs.super.id ∷ numbers,
          vfs2,
          rw (made, rest, e),
          (
            omega arith,
            IsIncreasing-le (suc vfs.super.id) vfs1.super.id vfs2.super.id numbers
                (omega (arith, next)) up,
          ),
          omega (arith, next, total),
        )
      ]
