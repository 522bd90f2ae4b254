-- ===== src/Extent.antt =====
-- sp.c: the extents of a file, their headers, and the copies between an extent and the memory of
-- the caller. An extent is a run of blocks; its first block starts with the header.
mod Format
mod Read
pub mod Headers
pub mod Counts
pub mod Inside
pub mod Copies
pub mod Short
pub mod Rounds
pub mod Whole
unfoldable pub use Format.*
unfoldable pub use Read.*
use spfs.Base.{
  ℕ, zero, suc, ◌+◌, ◌-◌, ◌*◌, ◌%◌, ◌^◌, Bool, true, false, not, ◌&&◌, ◌||◌, ltb, ◌==◌,
  if◌then◌else◌, Option, none, some, Res, ok, err, bug, out_of_fuel, ◌>>=◌, or_return, return_if,
  bug_on,
}
use spfs.Wire.{Bytes, Buffer, Made, or_stop, copy, read_u32, read_sector, write_u32}
use spfs.Device.{Device, sb_bread, put}
use spfs.FreeList.{free_alloc}
use spfs.Inode.{Failure, eio, einval, code}
use spfs.Insert.{Tree}

-- `spfs_file_extent_alloc`: the first block of the extent, or 0.
unfoldable pub file_extent_alloc : Tree → ℕ → Res Failure (ℕ × Tree)
unfolding make_file_extent
file_extent_alloc tree blocks =
    let (free, result) = free_alloc tree.free blocks in
    let tree' : Tree = record tree { free = free } in
    if result == 0 then ok (0, tree') else elim (sb_bread tree.dev result) [
      | none ↦ bug
      | some bh ↦ (do
        (res, bh, pos) ← make_file_extent bh 0 (record { next = 0; capacity = blocks; length = 0 })
        let tree'' : Tree = record tree' { dev = put tree.dev result bh }
        elim res [ some e ↦ ok (0, tree'') | none ↦ ok (result, tree'') ])
    ]

-- What a write works on: `in_buf` as an offset into the memory of the caller, `in_len`, `*ppos`.
pub record Writer : Type 0 where
  pub in_buf : ℕ
  pub in_len : ℕ
  pub pos : ℕ

-- `spfs_do_write`: the bytes that were written, the block and the writer.
unfoldable pub do_write : (user : Bytes) → Buffer → ℕ → Writer → Res Failure (ℕ × Buffer × Writer)
unfolding remaining
do_write user bh bh_pos w = do
  rest ← remaining bh bh_pos
  let con = min w.pos rest
  if w.pos - con == 0
      then (do
        rest ← remaining bh (bh_pos + con)
        let con' = min w.in_len rest
        ok (
          con',
          record bh { b_data = copy bh.b_data (bh_pos + con) (λ k. user (w.in_buf + k)) con' },
          record { in_buf = w.in_buf + con'; in_len = w.in_len - con'; pos = 0 },
        ))
      else ok (0, bh, record w { pos = w.pos - con })

-- `spfs_in_sector`
unfoldable pub in_sector : (block_size pos : ℕ) → Bool
in_sector block_size pos = ltb pos block_size

-- What `spfs_write_file_extent` changes: the device, `*header`, whether it is to be written,
-- `*extra`, and the writer.
pub record Progress : Type 0 where
  pub dev : Device
  pub header : Header
  pub dirty : Bool
  pub extra : ℕ
  pub w : Writer

-- After a write of `n` bytes to block `it`, with the contents `bh`.
abbrev pub wrote : Progress → ℕ → (n : ℕ) → Buffer → Writer → Progress
wrote s it n bh w = record s {
  dev = put s.dev it bh;
  header = record s.header { length = (s.header.length + n) % 2 ^ 32 };
  dirty = s.dirty || ltb 0 n;
  w = w;
}

-- The `while` loop over the blocks behind the first, on fuel for them: none, or the failure that
-- is returned. What it writes is not counted as written.
unfoldable pub write_tail :
    (fuel : ℕ)
    → (user : Bytes) → (block_size it end : ℕ) → Progress
    → Res Failure (Option Failure × Progress)
unfolding in_sector
write_tail zero user block_size it end s = out_of_fuel
write_tail (suc fuel) user block_size it end s = elim (ltb 0 s.w.in_len && ltb it end) [
  | false ↦ ok (none, s)
  | true ↦ elim (in_sector block_size s.w.pos) [
    | false ↦
        write_tail fuel user block_size (it + 1) end
          (record s { w = record s.w { pos = s.w.pos - block_size } })
    | true ↦ elim (sb_bread s.dev it) [
      | none ↦ ok (some eio, s)
      | some bh ↦ (do
        (n, bh, w) ← do_write user bh 0 s.w
        write_tail fuel user block_size (it + 1) end (wrote s it n bh w))
    ]
  ]
]

-- The extent that is to follow the last one is put into its header.
unfoldable pub link_extra : Progress → Progress
link_extra s =
    if s.header.next == 0 && not (s.extra == 0)
    then record s { header = record s.header { next = s.extra }; dirty = true; extra = 0 }
    else s

-- The header is written back if it changed; that this succeeds is a BUG_ON.
unfoldable pub write_header : ℕ → Progress → Res Failure Progress
unfolding make_file_extent
write_header start s =
    if s.dirty
    then (do
      (res, bh, pos) ←
          make_file_extent (record { b_size = s.dev.block_size; b_data = s.dev.blocks start }) 0
            s.header
      elim res [ some e ↦ bug | none ↦ ok (record s { dev = put s.dev start bh }) ])
    else ok s

-- `spfs_write_file_extent`.
unfoldable pub write_file_extent :
    (fuel : ℕ) → (user : Bytes) → (block_size start : ℕ) → Progress → Res Failure (Ssize × Progress)
write_file_extent fuel user block_size start s = elim (sb_bread s.dev start) [
  | none ↦ ok (minus eio, s)
  | some bh ↦ elim (parse_file_extent bh 0) [
    | err e ↦ ok (minus e, s)
    | bug ↦ bug
    | out_of_fuel ↦ out_of_fuel
    | ok parsed ↦ (do
      let s = link_extra (record s { header = parsed.0; dirty = false })
      (n, bh, w) ← do_write user bh parsed.1 s.w
      (res, s') ←
          write_tail fuel user block_size (start + 1) (start + s.header.capacity)
            (wrote s start n bh w)
      elim res [
        | some e ↦ ok (minus e, s')
        | none ↦ (do s' ← write_header start s'; ok (count n, s'))
      ])
  ]
]

-- `spfs_blocks_for`, on fuel for its loop.
unfoldable pub blocks_for : (fuel block_size bytes result : ℕ) → Res Failure ℕ
blocks_for zero block_size bytes result = out_of_fuel
blocks_for (suc fuel) block_size bytes result = elim (bytes == 0) [
  | true ↦ ok result
  | false ↦ blocks_for fuel block_size (bytes - min bytes block_size) (result + 1)
]
