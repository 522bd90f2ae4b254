-- ===== src/Dir.antt =====
-- sp.c: the blocks of a directory, `spfs_add_child`, which appends a child, and
-- `spfs_for_all_children`, which visits them. One block after the other is named by `next`.
pub mod Entries
pub mod Visits
pub mod Appends
pub mod First
pub mod Full
pub mod Chains
pub mod Kept
pub mod Closures
use spfs.Base.{
  ℕ, zero, suc, ◌+◌, ◌*◌, ◌/◌, ◌%◌, ◌^◌, Bool, not, ◌==◌, if◌then◌else◌, Option, none, some, Res,
  ok, err, bug, out_of_fuel, ◌>>=◌, or_return, return_if,
}
use spfs.Wire.{Buffer, Made, or_stop, with_room, read_u32, read_ino, read_sector, write_u32}
use spfs.Device.{Device, sb_bread, put}
use spfs.FreeList.{FreeList, free_alloc}
use spfs.Inode.{Inode, Failure, eio, einval, code}

-- SPOOKY_FS_DIR_BLOCK_MAGIC
abbrev pub dir_magic : ℕ
dir_magic = 0xDEADBEEF

-- `struct spfs_dir_block`
pub record DirBlock : Type 0 where
  pub next : ℕ
  pub children : ℕ

-- The last read gives EINVAL, 22, where the others give -EINVAL.
unfoldable pub parse_dir_block : Buffer → ℕ → Res Failure (DirBlock × ℕ)
parse_dir_block bh pos = do
  (magic, pos) ← or_return einval (read_u32 bh pos)
  (next, pos) ← or_return einval (read_sector bh pos)
  (children, pos) ← or_return (code 22) (read_u32 bh pos)
  return_if (not (magic == dir_magic)) einval
      (ok (record { next = next; children = children }, pos))

unfoldable pub make_dir_block : Buffer → ℕ → DirBlock → Made Failure
unfolding or_stop
make_dir_block bh pos dir = or_stop einval bh pos (write_u32 bh pos dir_magic) (λ bh pos.
    or_stop einval bh pos (write_u32 bh pos dir.next) (λ bh pos.
      or_stop (code 22) bh pos (write_u32 bh pos dir.children) (λ bh pos. ok (none, bh, pos))))

unfoldable pub dir_is_full : DirBlock → Bool
dir_is_full dir = dir.children == 100

-- `sizeof(child)` is 8, and the child takes 4 of the bytes.
unfoldable pub write_child : Buffer → (start idx child : ℕ) → Res Failure Buffer
write_child bh start idx child = do
  offset ← or_return eio (with_room bh (start + idx * 8) 8 (start + idx * 8))
  (bh', pos) ← or_return eio (write_u32 bh offset child)
  ok bh'

-- The super block's free list, the device, and the inode of the directory.
pub record Dir : Type 0 where
  pub dev : Device
  pub free : FreeList
  pub parent : Inode

-- `spfs_dir_block_alloc`: the block, its buffer and the position behind the header, or 0.
unfoldable pub block_alloc : Dir → Res Failure (Option (ℕ × Buffer × ℕ) × Dir)
unfolding make_dir_block
block_alloc dir =
    let (free, result) = free_alloc dir.free 1 in
    let dir' : Dir = record dir { free = free } in
    if result == 0 then ok (none, dir') else elim (sb_bread dir.dev result) [
      | none ↦ ok (none, dir')
      | some bh ↦ (do
        (res, bh, pos) ← make_dir_block bh 0 (record { next = 0; children = 0 })
        elim res [
          | some e ↦ ok (none, record dir' { dev = put dir.dev result bh })
          | none ↦ ok (some (result, bh, pos), dir')
        ])
    ]

-- The code of `spfs_dir_write_child` is overwritten: a child without room is only counted.
unfoldable pub kept : Buffer → Res Failure Buffer → Res Failure Buffer
kept bh (ok bh') = ok bh'
kept bh (err e) = ok bh
kept bh bug = bug
kept bh out_of_fuel = out_of_fuel

-- A child is written behind those that the block has, and the header is written again.
unfoldable pub append : Dir → (start : ℕ) → Buffer → (pos : ℕ) → DirBlock → ℕ → Res Failure Dir
unfolding kept write_child make_dir_block
append dir start bh pos block child = do
  bh ← kept bh (write_child bh pos block.children child)
  (res, bh, pos) ← make_dir_block bh 0 (record block { children = (block.children + 1) % 2 ^ 32 })
  ok (record dir { dev = put dir.dev start bh })

-- The branch of `spfs_add_child` without a block: the new one becomes the first of the directory.
unfoldable pub add_first : Dir → ℕ → Res Failure (Option Failure × Dir)
unfolding block_alloc append
add_first dir child = do
  (got, dir) ← block_alloc dir
  elim got [
    | none ↦ ok (some einval, record dir { parent = record dir.parent { start = 0 } })
    | some new ↦ (do
      let (start, bh, pos) = new
      dir ←
          append (record dir { parent = record dir.parent { start = start } }) start bh pos
            (record { next = 0; children = 0 }) child
      ok (none, dir))
  ]

-- The loop of `spfs_add_child` from the block `start`, on fuel for its blocks.
unfoldable pub add_from : (fuel : ℕ) → Dir → (start child : ℕ) → Res Failure (Option Failure × Dir)
unfolding add_first append parse_dir_block dir_is_full
add_from zero dir start child = out_of_fuel
add_from (suc fuel) dir zero child = add_first dir child
add_from (suc fuel) dir (suc n) child = elim (sb_bread dir.dev (suc n)) [
  | none ↦ ok (some eio, dir)
  | some bh ↦ elim (parse_dir_block bh 0) [
    | err e ↦ ok (some einval, dir)
    | bug ↦ bug
    | out_of_fuel ↦ out_of_fuel
    | ok parsed ↦ elim (dir_is_full parsed.0) [
      | Bool.true ↦ add_from fuel dir parsed.0.next child
      | Bool.false ↦ (do dir ← append dir (suc n) bh parsed.1 parsed.0 child; ok (none, dir))
    ]
  ]
]

-- `spfs_add_child`; `none` is 0.
unfoldable pub add_child : ℕ → Dir → ℕ → Res Failure (Option Failure × Dir)
unfolding add_from
add_child fuel dir child =
    add_from fuel
      (record dir { parent = record dir.parent { capacity = (dir.parent.capacity + 1) % 2 ^ 32 } })
      dir.parent.start child

-- `S_ISDIR`
unfoldable pub s_isdir : ℕ → Bool
s_isdir mode = mode / 2 ^ 12 % 16 == 4

-- How the loop over a block ends: at its last child, or with the result of the whole function.
pub data Walk : Type 0 where
  behind : Walk
  leave : Option Failure → Walk

-- `spfs_inode_by_id`, with `none` for an error pointer, and the callback with its closure.
module _ {I C : Type 0} (by_id : ℕ → Option I) (cb : C → I → C × Bool) where
  -- One child: whether it is found and what the callback says.
  unfoldable pub visit : ℕ → C → C × Bool
  visit ino closure = elim (by_id ino) [
    | none ↦ (closure, Bool.true)
    | some inode ↦ cb closure inode
  ]

  -- The `while` loop with the children that are left, on fuel for the words of the block. A word
  -- that is 0 is passed over and not counted.
  unfoldable pub read_children : (fuel : ℕ) → Buffer → (pos left : ℕ) → C → Res Failure (C × Walk)
  unfolding visit
  read_children fuel bh pos zero closure = ok (closure, behind)
  read_children zero bh pos (suc left) closure = out_of_fuel
  read_children (suc fuel) bh pos (suc left) closure = elim (read_ino bh pos) [
    | err e ↦ ok (closure, leave (some einval))
    | bug ↦ bug
    | out_of_fuel ↦ out_of_fuel
    | ok word ↦ elim (word.0 == 0) [
      | Bool.true ↦ read_children fuel bh word.1 (suc left) closure
      | Bool.false ↦ elim (visit word.0 closure).1 [
        | Bool.true ↦ read_children fuel bh word.1 left (visit word.0 closure).0
        | Bool.false ↦ ok ((visit word.0 closure).0, leave none)
      ]
    ]
  ]

  -- The blocks from `child_list` on: the closure and the result, where `none` is 0.
  unfoldable pub for_all_from :
      (words fuel : ℕ) → Device → (child_list : ℕ) → C → Res Failure (C × Option Failure)
  unfolding read_children parse_dir_block
  for_all_from words zero dev child_list closure = out_of_fuel
  for_all_from words (suc fuel) dev zero closure = ok (closure, none)
  for_all_from words (suc fuel) dev (suc n) closure = elim (sb_bread dev (suc n)) [
    | none ↦ ok (closure, some eio)
    | some bh ↦ elim (parse_dir_block bh 0) [
      | err e ↦ ok (closure, some e)
      | bug ↦ bug
      | out_of_fuel ↦ out_of_fuel
      | ok parsed ↦ (do
        (closure, walk) ← read_children words bh parsed.1 parsed.0.children closure
        elim walk [
          | leave res ↦ ok (closure, res)
          | behind ↦ for_all_from words fuel dev parsed.0.next closure
        ])
    ]
  ]

  unfoldable pub for_all_children : (words fuel : ℕ) → Dir → C → Res Failure (C × Option Failure)
  unfolding for_all_from s_isdir
  for_all_children words fuel dir closure =
      if not (s_isdir dir.parent.i_mode)
      then ok (closure, some einval)
      else for_all_from words fuel dir.dev dir.parent.start closure
