-- ===== src/File/Read.antt =====
-- sp.c: `spfs_read` on an open file.
use spfs.Base.{
  ℕ, zero, suc, ◌+◌, ◌/◌, ◌%◌, ◌^◌, Bool, true, false, not, ltb, ◌==◌, if◌then◌else◌, Res, ok,
  out_of_fuel, ◌>>=◌,
}
use spfs.Wire.{Bytes}
use spfs.Device.{Device}
use spfs.Inode.{Inode, Failure, einval}
use spfs.Insert.{Tree}
use spfs.Extent.{Reader, Ssize, count, minus, read_file_extent}

-- `S_ISREG`
unfoldable pub s_isreg : ℕ → Bool
s_isreg mode = mode / 2 ^ 12 % 16 == 8

-- An open file: the tree and the free list of its super block with `sbi->block_size`, the inode in
-- memory, its size (`i_size`), and whether `inode->lock` is held.
pub record OpenFile : Type 0 where
  pub tree : Tree
  pub block_size : ℕ
  pub inode : Inode
  pub i_size : ℕ
  pub locked : Bool

-- `mutex_lock`: with the lock held, the caller waits for ever.
abbrev pub mutex_lock : {A : Type 0} → OpenFile → (OpenFile → Res Failure A) → Res Failure A
mutex_lock file rest = if file.locked then out_of_fuel else rest (record file { locked = true })

-- The loop of `spfs_read` over the extents of the file.
unfoldable pub read_from :
    (blocks fuel : ℕ) → Device → (start read : ℕ) → Reader → Res Failure (Ssize × Reader)
unfolding read_file_extent
read_from blocks zero dev start read r = out_of_fuel
read_from blocks (suc fuel) dev zero read r = ok (count read, r)
read_from blocks (suc fuel) dev (suc n) read r = do
  (res, next, r) ← read_file_extent blocks dev (suc n) r
  elim res [
    | minus e ↦ ok (minus e, r)
    | count n ↦ elim (ltb 0 r.in_len) [
      | true ↦ read_from blocks fuel dev next (read + n) r
      | false ↦ ok (count (read + n), r)
    ]
  ]

-- `spfs_read`: the result, `*ppos`, the memory of the caller, and the file. A failure returns with
-- the lock held.
unfoldable pub read :
    (blocks fuel : ℕ)
    → OpenFile
    → (user : Bytes) → (in_buf in_len ppos : ℕ) → Res Failure (Ssize × ℕ × Bytes × OpenFile)
unfolding s_isreg
read blocks fuel file user in_buf in_len ppos =
    if in_len == 0
    then ok (count 0, ppos, user, file)
    else if not (s_isreg file.inode.i_mode)
    then ok (minus einval, ppos, user, file)
    else mutex_lock file (λ file. do
      (res, r) ←
          read_from blocks fuel file.tree.dev file.inode.start 0
            (record { user = user; in_buf = in_buf; in_len = in_len; pos = ppos })
      elim res [
        | minus e ↦ ok (minus e, ppos, r.user, file)
        | count n ↦ ok (count n, ppos + n, r.user, record file { locked = false })
      ])
