-- ===== src/Vfs.antt =====
-- sp.c: the operations on directories that the kernel calls, `spfs_create` and `spfs_mkdir`, passed
-- on from a child, `spfs_lookup` and `spfs_iterate`, and `spfs_write_inode`.
mod Make
pub mod Steps
pub mod Ready
pub mod First
pub mod Second
pub mod Lookup
pub mod Orphans
pub mod Writes
pub mod Emit
pub mod Iterate
pub mod Search
pub mod Taken
unfoldable pub use Make.*
use spfs.Base.{
  ℕ, zero, suc, ◌+◌, ◌/◌, ◌%◌, ◌^◌, Bool, true, false, not, ltb, leb, ◌==◌, if◌then◌else◌, Option,
  none, some, Res, ok, err, bug, out_of_fuel, ◌>>=◌, bug_on, List, ◌∷◌,
}
use spfs.Wire.{Bytes, copy}
use spfs.Inode.{Inode, Failure, eio, enametoolong, name_max}
use spfs.Tree.{Callback, modify_from}
use spfs.Insert.{Tree, insert}
use spfs.Dir.{s_isdir, add_child, for_all_children}
use spfs.File.{s_isreg}
use spfs.Icache.{Live, Vfs, error, null, at, Kernel, keep, new_inode, inode_by_id}

module _ (kernel : Kernel) (frame : Bytes) (fuel : Fuel) where
  -- A callback on an inode in memory, with the state that it changes.
  abbrev pub Visitor : Type 0 → Type 0
  Visitor C = C → ℕ → Inode → Res Failure (C × Bool)

  -- `spfs_inode_by_id` and the callback on what it gives: an error pointer is passed over, NULL is
  -- followed by the callback. A BUG ends the visits.
  unfoldable pub visit_child :
      {C : Type 0} → Visitor C → Res Failure (Vfs × C) → (ino : ℕ) → Res Failure (Vfs × C) × Bool
  visit_child visitor (ok (vfs, closure)) ino =
      elim (inode_by_id kernel frame fuel.probes fuel.levels vfs ino) [
        | err e ↦ (err e, false)
        | bug ↦ (bug, false)
        | out_of_fuel ↦ (out_of_fuel, false)
        | ok (error e, vfs') ↦ (ok (vfs', closure), true)
        | ok (null, vfs') ↦ (bug, false)
        | ok (at n, vfs') ↦ elim (vfs'.cache n) [
          | none ↦ (bug, false)
          | some live ↦ elim (visitor closure n live.inode) [
            | err e ↦ (err e, false)
            | bug ↦ (bug, false)
            | out_of_fuel ↦ (out_of_fuel, false)
            | ok (closure', go_on) ↦ (ok (vfs', closure'), go_on)
          ]
        ]
      ]
  visit_child visitor (err e) ino = (err e, false)
  visit_child visitor bug ino = (bug, false)
  visit_child visitor out_of_fuel ino = (out_of_fuel, false)

  -- `spfs_for_all_children` on a directory in memory, with its result left aside, as by its
  -- callers.
  unfoldable pub visit_children :
      {C : Type 0} → Visitor C → Vfs → (parent : Inode) → C → Res Failure (Vfs × C)
  unfolding visit_child
  visit_children visitor vfs parent closure = do
    (left, res) ←
        for_all_children some (visit_child visitor) fuel.words fuel.blocks
          (record { dev = vfs.tree.dev; free = vfs.tree.free; parent = parent }) (ok (vfs, closure))
    left

-- `strcmp(a, b) == 0`, on the bytes that are left of the arrays; behind them is an access outside.
unfoldable pub str_eq : (left : ℕ) → Bytes → Bytes → (k : ℕ) → Res Failure Bool
str_eq zero a b k = bug
str_eq (suc left) a b k = elim (a k == b k) [
  | false ↦ ok false
  | true ↦ elim (a k == 0) [ true ↦ ok true | false ↦ str_eq left a b (k + 1) ]
]

-- `strlen`
unfoldable pub str_len : (left : ℕ) → Bytes → (k : ℕ) → Res Failure ℕ
str_len zero a k = bug
str_len (suc left) a k = elim (a k == 0) [ true ↦ ok k | false ↦ str_len left a (k + 1) ]

-- `spfs_inode_by_name_cb`
unfoldable pub by_name_cb : (name : Bytes) → Option ℕ → ℕ → Inode → Res Failure (Option ℕ × Bool)
unfolding str_eq
by_name_cb name result n inode = do
  same ← str_eq name_max inode.name name 0
  ok (if same then some n else result, not same)

-- What `dir_emit` is given: a name with its length, an inode number and a type.
pub record Entry : Type 0 where
  pub name : Bytes
  pub len : ℕ
  pub ino : ℕ
  pub type : ℕ

-- `struct dir_context`: its position, and what was emitted, the last first.
pub record DirContext : Type 0 where
  pub pos : ℕ
  pub emitted : List Entry

module _ (kernel : Kernel) (frame : Bytes) (fuel : Fuel) where
  -- `spfs_lookup` with `spfs_inode_by_name`: the inode that `d_add` gives to the dentry, or NULL.
  unfoldable pub lookup : Vfs → (parent : ℕ) → (name : Bytes) → Res Failure (Vfs × Option ℕ)
  unfolding visit_children by_name_cb
  lookup vfs parent name = elim (vfs.cache parent) [
    | none ↦ bug
    | some live ↦ visit_children kernel frame fuel (by_name_cb name) vfs live.inode none
  ]

  -- `dir_emit` says whether there is room for one more entry.
  module _ (dir_emit : DirContext → Entry → Bool) where
    -- `spfs_iterate_cb`: the context and the position in the directory.
    unfoldable pub iterate_cb : DirContext × ℕ → ℕ → Inode → Res Failure ((DirContext × ℕ) × Bool)
    unfolding str_len
    iterate_cb (ctx, pos) n inode = do
      nlen ← str_len name_max inode.name 0
      let entry : Entry = record {
        name = inode.name;
        len = nlen;
        ino = inode.i_ino;
        type = inode.i_mode / 2 ^ 12 % 16;
      }
      let room = dir_emit ctx entry
      ok (
        (
          if pos == ctx.pos
              then (if room
                  then record { pos = ctx.pos + 1; emitted = entry ∷ ctx.emitted }
                  else ctx)
              else ctx,
          pos + 1,
        ),
        if pos == ctx.pos then room else true,
      )

    -- `spfs_iterate`; `dots` is `dir_emit_dots`.
    unfoldable pub iterate :
        (dots : DirContext → DirContext × Bool)
        → Vfs
        → (parent : ℕ) → DirContext
        → Res Failure (Option Failure × Vfs × DirContext)
    unfolding visit_children iterate_cb
    iterate dots vfs parent ctx = elim (vfs.cache parent) [
      | none ↦ bug
      | some live ↦
          let (ctx, room) = dots ctx in
          if not room
          then ok (some eio, vfs, ctx)
          else if leb ((live.inode.capacity + 2) % 2 ^ 32) ctx.pos
          then ok (none, vfs, ctx)
          else (do
            (vfs, left) ← visit_children kernel frame fuel iterate_cb vfs live.inode (ctx, 2)
            ok (none, vfs, left.0))
    ]

-- `spfs_mod_inode_cb`: the inode that was read from the disk is written as it is.
unfoldable pub mod_inode_cb : Callback Live
mod_inode_cb live entry = (true, live, entry)

-- `spfs_write_inode`
unfoldable pub write_inode :
    (frame : Bytes) → Fuel → Tree → Live → Res Failure (Option Failure × Tree)
unfolding mod_inode_cb
write_inode frame fuel tree live =
    elim (modify_from frame mod_inode_cb fuel.probes fuel.levels tree.dev tree.start
      live.inode.i_ino live) [
        | err e ↦ ok (some e, tree)
        | bug ↦ bug
        | out_of_fuel ↦ out_of_fuel
        | ok (dev, live) ↦ ok (none, record tree { dev = dev })
      ]
