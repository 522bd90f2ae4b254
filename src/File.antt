-- ===== src/File.antt =====
-- sp.c: `spfs_read` and `spfs_write` on an open file, with the growth of the file's extents.
mod Read
pub mod Reports
pub mod Taken
pub mod Whole
pub mod Appended
pub mod Append
unfoldable pub use Read.*
use spfs.Base.{
  ℕ, zero, suc, ◌+◌, ◌-◌, ◌*◌, ◌/◌, ◌%◌, ◌^◌, Bool, true, false, not, ◌&&◌, ltb, leb, ◌==◌,
  if◌then◌else◌, Option, none, some, Res, ok, err, bug, out_of_fuel, ◌>>=◌, bug_on,
}
use spfs.Wire.{Bytes}
use spfs.Device.{Device}
use spfs.Inode.{Inode, Failure, eio, einval, eintr, code}
use spfs.Tree.{Callback, modify_from}
use spfs.Insert.{Tree}
use spfs.Extent.{
  Reader, Writer, Progress, Ssize, count, minus, min, sizeof_header, data_bytes, read_file_extent,
  file_extent_alloc, write_file_extent, blocks_for,
}

-- `struct spfs_modify_start`, and its callback. That the inode on the disk is a regular file is a
-- BUG_ON, which the closure keeps.
pub record ModifyStart : Type 0 where
  pub start : ℕ
  pub capacity : ℕ

unfoldable pub modify_start_cb : Callback (Res Failure ModifyStart)
unfolding s_isreg
modify_start_cb (ok ctx) inode =
    if not (s_isreg inode.i_mode)
    then (false, bug, inode)
    else (true, ok ctx, record inode { start = ctx.start; capacity = ctx.capacity % 2 ^ 32 })
modify_start_cb other inode = (false, other, inode)

-- `spfs_calc_extra_blocks`
unfoldable pub calc_extra_blocks : (fuel block_size capacity in_pos in_len : ℕ) → Res Failure ℕ
unfolding blocks_for
calc_extra_blocks fuel block_size capacity in_pos in_len =
    let end = (in_pos + in_len) % 2 ^ 64 in
    if leb end capacity
    then ok 0
    else blocks_for fuel block_size ((end - capacity + sizeof_header) % 2 ^ 64) 0

-- The fuel of the loops that a write runs: the count of blocks, the search in a node, the nodes on
-- the way to an inode, and the blocks of an extent and the extents that are written.
pub record Fuel : Type 0 where
  pub counting : ℕ
  pub probes : ℕ
  pub levels : ℕ
  pub blocks : ℕ
  pub extents : ℕ

-- The inode on the disk gets the start and the capacity of the one in memory.
unfoldable pub store_start :
    (frame : Bytes) → Fuel → OpenFile → Res Failure (Option Failure × OpenFile)
unfolding modify_start_cb
store_start frame fuel file =
    elim (modify_from frame modify_start_cb fuel.probes fuel.levels file.tree.dev file.tree.start
      file.inode.i_ino (ok (record { start = file.inode.start; capacity = file.inode.capacity }))) [
        | err e ↦ ok (some e, file)
        | bug ↦ bug
        | out_of_fuel ↦ out_of_fuel
        | ok left ↦ elim left.1 [
          | ok ctx ↦ ok (none, record file { tree = record file.tree { dev = left.0 } })
          | err e ↦ bug
          | bug ↦ bug
          | out_of_fuel ↦ out_of_fuel
        ]
      ]

-- The new extent becomes the first one of the file, or is left in `*extra` for the last one.
unfoldable pub grow : OpenFile → (extra bytes : ℕ) → ℕ × OpenFile
grow file extra bytes =
    let inode : Inode = record file.inode {
      start = if file.inode.start == 0 then extra else file.inode.start;
      capacity = (file.inode.capacity + bytes) % 2 ^ 32;
    } in
    (if file.inode.start == 0 then 0 else extra, record file { inode = inode })

-- `spfs_ensure_capacity`: the result, `*extra` and the file.
unfoldable pub ensure_capacity :
    (frame : Bytes)
    → Fuel
    → OpenFile
    → (in_pos in_len : ℕ) → Res Failure (Option Failure × ℕ × OpenFile)
unfolding calc_extra_blocks file_extent_alloc data_bytes grow store_start
ensure_capacity frame fuel file in_pos in_len = do
  blocks ← calc_extra_blocks fuel.counting file.block_size file.inode.capacity in_pos in_len
  elim (blocks == 0) [
    | true ↦ ok (none, 0, file)
    | false ↦ (do
      (extra, tree) ← file_extent_alloc file.tree blocks
      let file : OpenFile = record file { tree = tree }
      elim (extra == 0) [
        | true ↦ ok (some eio, 0, file)
        | false ↦ (do
          bytes ← data_bytes file.block_size blocks
          let (extra, file) = grow file extra bytes
          (res, file) ← store_start frame fuel file
          ok (res, extra, file))
      ])
  ]

-- The loop of `spfs_write` over the extents of the file: a result other than 0 is a failure.
unfoldable pub write_from :
    (blocks fuel : ℕ)
    → (user : Bytes) → (block_size start written : ℕ) → Progress
    → Res Failure (Ssize × Progress)
unfolding write_file_extent
write_from blocks zero user block_size start written s = out_of_fuel
write_from blocks (suc fuel) user block_size zero written s = ok (count written, s)
write_from blocks (suc fuel) user block_size (suc n) written s = do
  (ires, s) ← write_file_extent blocks user block_size (suc n) s
  elim ires [
    | minus e ↦ ok (minus eio, s)
    | count n ↦ elim (n == 0) [
      | false ↦ ok (minus eio, s)
      | true ↦ elim (ltb 0 s.w.in_len) [
        | true ↦ write_from blocks fuel user block_size s.header.next (written + n) s
        | false ↦ ok (count (written + n), s)
      ]
    ]
  ]

-- The end of `spfs_write`, behind its loop.
unfoldable pub write_done :
    OpenFile → (ppos : ℕ) → Ssize × Progress → Res Failure (Ssize × ℕ × OpenFile)
write_done file ppos (minus e, s) = ok (minus e, ppos, file)
write_done file ppos (count n, s) = bug_on (not (s.extra == 0)) (
    bug_on (not (s.w.in_len == 0))
      (ok (count n, ppos + n, record file { i_size = file.i_size + n; locked = false })))

-- What the loop of `spfs_write` begins with.
abbrev pub begun : OpenFile → (in_buf in_len ppos extra : ℕ) → Progress
begun file in_buf in_len ppos extra = record {
  dev = file.tree.dev;
  header = record { next = 0; capacity = 0; length = 0 };
  dirty = false;
  extra = extra;
  w = record { in_buf = in_buf; in_len = in_len; pos = ppos };
}

-- The part of `spfs_write` behind `spfs_ensure_capacity`, with the clamped `*ppos`.
unfoldable pub write_extents :
    Fuel
    → (user : Bytes) → OpenFile
    → (in_buf in_len ppos extra : ℕ) → Res Failure (Ssize × ℕ × OpenFile)
write_extents fuel user file in_buf in_len ppos extra = do
  (res, s) ←
      write_from fuel.blocks fuel.extents user file.block_size file.inode.start 0
        (begun file in_buf in_len ppos extra)
  write_done (record file { tree = record file.tree { dev = s.dev } }) ppos (res, s)

-- `return res`, where `res` was an `int`: a positive code is a count for the caller.
unfoldable pub as_ssize : Failure → Ssize
as_ssize (code n) = count n
as_ssize e = minus e

-- The part of `spfs_write` behind its lock, with the result of `spfs_ensure_capacity`.
unfoldable pub write_grown :
    Fuel
    → (user : Bytes) → (in_buf in_len ppos : ℕ) → Option Failure × ℕ × OpenFile
    → Res Failure (Ssize × ℕ × OpenFile)
unfolding as_ssize
write_grown fuel user in_buf in_len ppos (some e, extra, file) = ok (as_ssize e, ppos, file)
write_grown fuel user in_buf in_len ppos (none, extra, file) =
    write_extents fuel user file in_buf in_len ppos extra

-- `spfs_write`: the result, `*ppos` and the file. `signal` says whether a signal ends a wait for
-- the lock. A failure behind the lock returns with the lock held.
unfoldable pub write :
    (frame : Bytes)
    → Fuel
    → (signal : Bool) → OpenFile
    → (user : Bytes) → (in_buf in_len ppos : ℕ) → Res Failure (Ssize × ℕ × OpenFile)
unfolding s_isreg
write frame fuel signal file user in_buf in_len ppos =
    if in_len == 0
    then ok (count 0, ppos, file)
    else if not (s_isreg file.inode.i_mode)
    then ok (minus einval, ppos, file)
    else if file.locked && signal
    then ok (minus eintr, ppos, file)
    else mutex_lock file (λ file.
      ensure_capacity frame fuel file (min ppos file.i_size) in_len
      >>= write_grown fuel user in_buf in_len (min ppos file.i_size))
