-- ===== src/File/Append.antt =====
-- `spfs_write` behind the bytes of a file that has them in one block.
use spfs.Base.{
  ℕ, zero, suc, ◌+◌, ◌^◌, ◌≤◌, ◌<◌, ◌≡◌, ◌≢◌, refl, sym, true, false, Bool, arith, ok, ap, ◌∙◌,
  none, leb-true, ==_false,
}
use mathlib.Core.Path.{subst}
use native.Mathlib.Nat.{mod-eq_of_lt}
use spfs.Wire.{Bytes}
use spfs.Inode.{eio}
use spfs.Extent.{Progress, count, minus, min, write_file_extent}
use spfs.Extent.Headers.{header_at}
use spfs.Extent.Inside.{write_file_extent_inside}
use spfs.File.{
  OpenFile, Fuel, s_isreg, begun, calc_extra_blocks, ensure_capacity, write_from, write_extents,
  write_grown, write_done, write,
}
use spfs.File.Whole.{IsFile}
use spfs.File.Appended.{in_block, new_IsFile, with_new}

-- A round of the loop that wrote something ends it.
write_from_round :
    (blocks fuel : ℕ) (user : Bytes) (block_size start written n : ℕ) (s s' : Progress)
    → start ≢ 0
    → n ≢ 0
    → write_file_extent blocks user block_size start s ≡ ok (count n, s')
    → write_from blocks (suc fuel) user block_size start written s ≡ ok (minus eio, s')
unfolding write_from
write_from_round blocks fuel user block_size zero written n s s' there some round =
    absurd (there refl)
write_from_round blocks fuel user block_size (suc m) written n s s' there some round =
    rw (write_from, round) (ground (arith, some))

-- Nothing is allocated where the capacity is enough.
ensure_capacity_enough :
    (frame : Bytes) (fuel : Fuel) (file : OpenFile) (in_pos in_len : ℕ)
    → in_pos + in_len ≤ file.inode.capacity
    → in_pos + in_len < 2 ^ 64
    → ensure_capacity frame fuel file in_pos in_len ≡ ok (none, 0, file)
unfolding ensure_capacity calc_extra_blocks
ensure_capacity_enough frame fuel file in_pos in_len enough small =
    rw
      (
        ensure_capacity,
        calc_extra_blocks,
        mod-eq_of_lt small,
        leb-true (in_pos + in_len) file.inode.capacity enough,
      )
      refl

min_size : (ppos size : ℕ) → size ≤ ppos → min ppos size ≡ size
min_size ppos size h = ground arith

module _ (frame : Bytes) (fuel : Fuel) (signal : Bool) (file : OpenFile) (bytes user : Bytes)
    (in_buf n ppos blocks extents : ℕ) (regular : s_isreg file.inode.i_mode ≡ true)
    (free : file.locked ≡ false) (some : n ≢ 0) (behind : file.i_size ≤ ppos)
    (capacity : file.i_size + n ≤ file.inode.capacity) (small : file.i_size + n < 2 ^ 32)
    (f_blocks : fuel.blocks ≡ suc blocks) (f_extents : fuel.extents ≡ suc extents) where
  -- The run of a write whose first round writes all that there is.
  write_run :
      (s : Progress)
      → file.inode.start ≢ 0
      → write_file_extent
          (suc blocks)
          user
          file.block_size
          file.inode.start
          (begun file in_buf n file.i_size 0)
        ≡ ok (count n, s)
      → write frame fuel signal file user in_buf n ppos
        ≡ ok (
          minus eio,
          file.i_size,
          record file { locked = true; tree = record file.tree { dev = s.dev } },
        )
  unfolding write write_grown write_extents write_done
  write_run s there round =
      rw
        (
          write,
          ==_false n 0 some,
          regular,
          free,
          min_size ppos file.i_size behind,
          ensure_capacity_enough frame fuel (record file { locked = true }) file.i_size n capacity
              (omega arith),
          f_blocks,
          f_extents,
          write_from_round (suc blocks) extents user file.block_size file.inode.start 0 n
              (begun file in_buf n file.i_size 0) s there some round,
        )
        refl

  -- Bytes are written at the end of a regular file that is not locked, whose bytes lie in one
  -- block, with room for them there and in the capacity of the inode. `spfs_write` says -EIO,
  -- leaves the size and the inode as they were, and keeps the lock. But the bytes are on the
  -- disk: the extents of the file hold the old bytes, and the new ones behind them.
  pub write-IsFile :
      16 + file.i_size + n ≤ file.tree.dev.block_size
      → IsFile file.tree.dev (suc blocks) 1 file.inode.start file.i_size bytes
      → (file' : OpenFile) × (write frame fuel signal file user in_buf n ppos
          ≡ ok (minus eio, file.i_size, file'))
        × (file'.locked ≡ true)
        × (file'.inode ≡ file.inode)
        × (file'.i_size ≡ file.i_size)
        × IsFile file'.tree.dev
            (suc blocks)
            1
            file.inode.start
            (file.i_size + n)
            (with_new bytes file.i_size user in_buf)
  unfolding IsFile
  write-IsFile room (is, (no_next, whole)) =
      let start = file.inode.start in
      let dev = file.tree.dev in
      let same : (header_at (dev.blocks start)).length ≡ file.i_size = omega (arith, is.part) in
      let shown : dev.readable start ≡ true =
        ap dev.readable (sym (in_block start 0 dev.block_size (omega arith)))
        ∙ is.readable 0 (omega arith) in
      let (s, round, content, readable, size, others) =
        write_file_extent_inside blocks user file.block_size start in_buf n dev
          (record { next = 0; capacity = 0; length = 0 }) false shown is.magic (omega arith)
          (omega (arith, same)) in
      (
        record file { locked = true; tree = record file.tree { dev = s.dev } },
        write_run s is.there (
            ap
              (λ p.
                write_file_extent (suc blocks) user file.block_size start (begun file in_buf n p 0))
              (sym same)
            ∙ round),
        refl,
        refl,
        refl,
        subst (λ len. IsFile s.dev (suc blocks) 1 start (len + n) (with_new bytes len user in_buf))
            same
            (new_IsFile dev s.dev start n in_buf bytes user (omega (arith, same))
              (omega (arith, same)) content readable size (suc blocks) (omega arith)
              (subst (λ len. IsFile dev (suc blocks) 1 start len bytes) (sym same)
                (is, (no_next, whole)))),
      )
