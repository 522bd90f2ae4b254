-- ===== src/Extent/Read.antt =====
-- sp.c: `spfs_read_file_extent`, from an extent to the memory of the caller.
use spfs.Base.{
  ℕ, zero, suc, ◌+◌, ◌-◌, true, false, ◌==◌, if◌then◌else◌, none, some, Res, ok, err, bug,
  out_of_fuel, ◌>>=◌,
}
use spfs.Wire.{Bytes, Buffer, copy}
use spfs.Device.{Device, sb_bread}
use spfs.Inode.{Failure, eio}
use spfs.Extent.Format.{min, parse_file_extent, remaining, Ssize, count, minus}

-- What a read works on: the memory of the caller, `in_buf` as an offset into it, `in_len`, `pos`.
pub record Reader : Type 0 where
  pub user : Bytes
  pub in_buf : ℕ
  pub in_len : ℕ
  pub pos : ℕ

-- One round of the loop of `spfs_read_file_extent` up to `brelse`: the bytes that were copied and
-- what is left of `header.length`.
unfoldable pub read_block : Buffer → (bh_pos length : ℕ) → Reader → Res Failure (ℕ × ℕ × Reader)
unfolding remaining
read_block bh bh_pos length r = do
  rest ← remaining bh bh_pos
  let con = min r.pos (min rest length)
  if r.pos - con == 0
      then (do
        rest ← remaining bh (bh_pos + con)
        let con' = min r.in_len (min rest (length - con))
        ok (
          con',
          length - con - con',
          record {
            user = copy r.user r.in_buf (λ k. bh.b_data (bh_pos + con + k)) con';
            in_buf = r.in_buf + con';
            in_len = r.in_len - con';
            pos = 0;
          },
        ))
      else ok (0, length - con, record r { pos = r.pos - con })

-- The loop, on fuel for the blocks that it reads.
unfoldable pub read_loop :
    (fuel : ℕ)
    → Device
    → (start : ℕ) → Buffer
    → (bh_pos length read : ℕ) → Reader
    → Res Failure (Ssize × Reader)
unfolding read_block
read_loop zero dev start bh bh_pos length read r = out_of_fuel
read_loop (suc fuel) dev start bh bh_pos length read r = do
  (con, length, r) ← read_block bh bh_pos length r
  elim (length == 0) [
    | true ↦ ok (count (read + con), r)
    | false ↦ elim (sb_bread dev (start + 1)) [
      | none ↦ ok (minus eio, r)
      | some bh ↦ read_loop fuel dev (start + 1) bh 0 length (read + con) r
    ]
  ]

-- `spfs_read_file_extent`: the result, `*next`, which is 0 before, and the reader.
unfoldable pub read_file_extent :
    (fuel : ℕ) → Device → (start : ℕ) → Reader → Res Failure (Ssize × ℕ × Reader)
unfolding parse_file_extent read_loop
read_file_extent fuel dev start r = elim (sb_bread dev start) [
  | none ↦ ok (minus eio, 0, r)
  | some bh ↦ elim (parse_file_extent bh 0) [
    | err e ↦ ok (minus e, 0, r)
    | bug ↦ bug
    | out_of_fuel ↦ out_of_fuel
    | ok parsed ↦ (do
      (res, r) ← read_loop fuel dev start bh parsed.1 parsed.0.length 0 r
      ok (res, parsed.0.next, r))
  ]
]
