-- ===== src/Vfs/Make.antt =====
-- sp.c: `spfs_create` and `spfs_mkdir`, with `spfs_generic_create`.
use spfs.Base.{ℕ, ◌+◌, not, ltb, if◌then◌else◌, Option, none, some, Res, ok, bug, ◌>>=◌, bug_on}
use spfs.Wire.{Bytes, copy}
use spfs.Inode.{Inode, Failure, enametoolong, name_max}
use spfs.Insert.{Tree, insert}
use spfs.Dir.{s_isdir, add_child}
use spfs.File.{s_isreg}
use spfs.Icache.{Live, Vfs, error, null, at, Kernel, keep, new_inode}

-- What the loops below the operations take: the search in a node, the levels of the tree, the
-- blocks of a directory and the words of a block.
pub record Fuel : Type 0 where
  pub probes : ℕ
  pub levels : ℕ
  pub blocks : ℕ
  pub words : ℕ

-- `struct qstr`
pub record Name : Type 0 where
  pub text : Bytes
  pub len : ℕ

-- The state and `d_inode` of the dentry behind `spfs_generic_create`, with its result.
pub record Created : Type 0 where
  pub res : Option Failure
  pub vfs : Vfs
  pub d_inode : Option ℕ

-- The inode takes the name, and goes into the tree. An inode that cannot be inserted stays in
-- memory.
unfoldable pub insert_named :
    (frame : Bytes) → Fuel → Vfs → (n : ℕ) → Live → Name → Res Failure Created
insert_named frame fuel vfs n live name = do
  let inode : Inode = record live.inode { name = copy (λ _. 0) 0 name.text name.len }
  let vfs : Vfs = keep vfs n (record live { inode = inode })
  left ← insert frame fuel.probes fuel.levels vfs.tree inode
  let vfs : Vfs = record vfs { tree = left.tree }
  ok (record {
    res = left.res;
    vfs = vfs;
    d_inode = elim left.res [ none ↦ some n | some e ↦ none ];
  })

-- `spfs_generic_create`. An error pointer is not NULL: the write of the name goes through it.
unfoldable pub generic_create :
    Kernel
    → (frame : Bytes) → Fuel
    → Vfs
    → (parent : Inode) → Name
    → (mode : ℕ) → Res Failure Created
unfolding insert_named
generic_create kernel frame fuel vfs parent name mode =
    if ltb name_max name.len
    then ok (record { res = some enametoolong; vfs = vfs; d_inode = none })
    else (do
      (inode, vfs) ← new_inode kernel vfs (some parent) mode
      elim inode [
        | error e ↦ bug
        | null ↦ ok (record { res = some Failure.enoent; vfs = vfs; d_inode = none })
        | at n ↦ elim (vfs.cache n) [
          | none ↦ bug
          | some live ↦ insert_named frame fuel vfs n live name
        ]
      ])

-- `spfs_add_child` on the directory with the number `parent`.
unfoldable pub add_to :
    Fuel → Vfs → (parent : ℕ) → Live → (child : ℕ) → Res Failure (Option Failure × Vfs)
add_to fuel vfs parent live child = do
  (res, dir) ←
      add_child fuel.blocks
        (record { dev = vfs.tree.dev; free = vfs.tree.free; parent = live.inode }) child
  let tree : Tree = record vfs.tree { dev = dir.dev; free = dir.free }
  ok (res, keep (record vfs { tree = tree }) parent (record live { inode = dir.parent }))

-- What `spfs_create` and `spfs_mkdir` do behind `spfs_generic_create`; `links` is what is added to
-- the links of the parent.
unfoldable pub adopt : Fuel → (parent links : ℕ) → Created → Res Failure Created
unfolding add_to
adopt fuel parent links made = elim made.res [
  | some e ↦ ok made
  | none ↦ elim made.d_inode [
    | none ↦ bug
    | some n ↦ elim (made.vfs.cache parent) [
      | none ↦ bug
      | some live ↦ (do
        (res, vfs) ← add_to fuel made.vfs parent (record live { nlink = live.nlink + links }) n
        ok (record made { res = res; vfs = vfs }))
    ]
  ]
]

module _ (kernel : Kernel) (frame : Bytes) (fuel : Fuel) where
  -- The parent is the directory in memory with the number `parent`.
  unfoldable pub make_in :
      (links : ℕ) → Vfs → (parent : ℕ) → Name → (mode : ℕ) → Res Failure Created
  unfolding generic_create adopt
  make_in links vfs parent name mode = elim (vfs.cache parent) [
    | none ↦ bug
    | some live ↦
        generic_create kernel frame fuel vfs live.inode name mode >>= adopt fuel parent links
  ]

  unfoldable pub create : Vfs → (parent : ℕ) → Name → (mode : ℕ) → Res Failure Created
  unfolding make_in s_isreg
  create vfs parent name mode = bug_on (not (s_isreg mode)) (make_in 0 vfs parent name mode)

  unfoldable pub mkdir : Vfs → (parent : ℕ) → Name → (mode : ℕ) → Res Failure Created
  unfolding make_in s_isdir
  mkdir vfs parent name mode = bug_on (not (s_isdir mode)) (make_in 1 vfs parent name mode)
