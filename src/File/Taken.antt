-- ===== src/File/Taken.antt =====
-- What a write takes of the free list: some allocations, on every branch. A read takes nothing.
use spfs.Base.{
  ℕ, ◌≡◌, ◌==◌, Bool, true, Bool-cases, inl, inr, Option, none, some, not, ◌&&◌, Returns,
  Returns-bind, Returns-after, Returns-bug_on, Returns-if, arith,
}
use spfs.Wire.{Bytes}
use spfs.FreeList.{FreeList}
use spfs.FreeList.Served.{Served, Served-trans, Served-one}
use spfs.Insert.{Tree}
use spfs.Inode.{Failure}
use spfs.Extent.{Ssize, Progress, count, minus, min, file_extent_alloc, data_bytes}
use spfs.File.{
  OpenFile, Fuel, begun, calc_extra_blocks, grow, store_start, ensure_capacity, write_from,
  write_done, write_extents, write_grown, write, read, s_isreg,
}

file_extent_alloc-Served :
    (tree : Tree) (blocks : ℕ)
    → Returns (λ out. Served tree.free out.1.free) (file_extent_alloc tree blocks)
unfolding file_extent_alloc
file_extent_alloc-Served tree blocks = let one = Served-one tree.free blocks in ground arith

module _ (free : FreeList) where
  -- The file is left with a list that is what is left of `free`.
  abbrev First : {R : Type 0} → R × OpenFile → Type 0
  First (r, file) = Served free file.tree.free

  abbrev pub Second : {R S : Type 0} → R × S × OpenFile → Type 0
  Second (r, s, file) = Served free file.tree.free

  store_start-First :
      (frame : Bytes) (fuel : Fuel) (file : OpenFile)
      → Served free file.tree.free
      → Returns First (store_start frame fuel file)
  unfolding store_start
  store_start-First frame fuel file taken = ground arith

  ensure_capacity-Second :
      (frame : Bytes) (fuel : Fuel) (file : OpenFile) (in_pos in_len : ℕ)
      → Served free file.tree.free
      → Returns Second (ensure_capacity frame fuel file in_pos in_len)
  unfolding ensure_capacity grow
  ensure_capacity-Second frame fuel file in_pos in_len taken =
      Returns-after Second
        (calc_extra_blocks fuel.counting file.block_size file.inode.capacity in_pos in_len) _
        (λ blocks. elim (Bool-cases (blocks == 0)) [
          | inl enough ↦ rw (enough) taken
          | inr more ↦ rw (more) (
              Returns-bind (λ out. Served file.tree.free out.1.free) Second
                (file_extent_alloc file.tree blocks) _ (file_extent_alloc-Served file.tree blocks)
                (λ (extra, tree) one. elim (Bool-cases (extra == 0)) [
                  | inl full ↦ rw (full) (Served-trans taken one)
                  | inr found ↦ rw (found) (
                      Returns-after Second (data_bytes file.block_size blocks) _ (λ bytes.
                        Returns-bind First Second (store_start frame fuel _) _
                          (store_start-First frame fuel _ (Served-trans taken one))
                          (λ (res, file) taken. taken)))
                ]))
        ])

  write_done-Second :
      (file : OpenFile) (ppos : ℕ) (end : Ssize × Progress)
      → Served free file.tree.free
      → Returns Second (write_done file ppos end)
  unfolding write_done
  write_done-Second file ppos (minus e, s) taken = taken
  write_done-Second file ppos (count n, s) taken =
      Returns-bug_on Second (not (s.extra == 0)) _
        (Returns-bug_on Second (not (s.w.in_len == 0)) _ taken)

  write_grown-Second :
      (fuel : Fuel) (user : Bytes) (in_buf in_len ppos : ℕ) (grown : Option Failure × ℕ × OpenFile)
      → Second grown
      → Returns Second (write_grown fuel user in_buf in_len ppos grown)
  unfolding write_grown write_extents
  write_grown-Second fuel user in_buf in_len ppos (some e, extra, file) taken = taken
  write_grown-Second fuel user in_buf in_len ppos (none, extra, file) taken =
      Returns-after Second
        (write_from fuel.blocks fuel.extents user file.block_size file.inode.start 0
          (begun file in_buf in_len ppos extra))
        _
        (λ (res, s).
          write_done-Second (record file { tree = record file.tree { dev = s.dev } }) ppos (res, s)
            taken)

  pub write-Second :
      (frame : Bytes) (fuel : Fuel) (signal : Bool) (file : OpenFile) (user : Bytes)
      (in_buf in_len ppos : ℕ)
      → Served free file.tree.free
      → Returns Second (write frame fuel signal file user in_buf in_len ppos)
  unfolding write
  write-Second frame fuel signal file user in_buf in_len ppos taken =
      Returns-if Second (in_len == 0) _ _ taken (
        Returns-if Second (not (s_isreg file.inode.i_mode)) _ _ taken (
          Returns-if Second (file.locked && signal) _ _ taken (
            Returns-if Second file.locked _ _ tt (
              Returns-bind Second Second
                (ensure_capacity frame fuel (record file { locked = true }) (min ppos file.i_size)
                  in_len)
                _
                (ensure_capacity-Second frame fuel (record file { locked = true })
                  (min ppos file.i_size) in_len taken)
                (write_grown-Second fuel user in_buf in_len (min ppos file.i_size))))))

-- A read leaves the tree alone.
pub read_tree :
    (blocks fuel : ℕ) (file : OpenFile) (user : Bytes) (in_buf in_len ppos : ℕ)
    → Returns (λ out. out.3.tree ≡ file.tree) (read blocks fuel file user in_buf in_len ppos)
unfolding read
read_tree blocks fuel file user in_buf in_len ppos = ground arith
