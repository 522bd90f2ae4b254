-- ===== src/Extent/Short.antt =====
-- Reads that want less than the rest of an extent.
use spfs.Base.{
  ℕ, zero, suc, ◌+◌, ◌-◌, ◌≤◌, ◌<◌, ◌≡◌, ◌≢◌, refl, true, false, Bool-cases, inl, inr, arith, ok,
  ap, ◌∙◌,
}
use spfs.Wire.{Buffer, load32, copy}
use spfs.Device.{Device, sb_bread}
use spfs.Inode.{eio}
use spfs.Extent.{Reader, minus, file_magic, read_block, read_loop, read_file_extent}
use spfs.Extent.Headers.{header_at, parse_file_extent-header_at}

-- A round that takes all that the reader still wants leaves the rest of the extent.
read_block_short :
    (bh : Buffer) (bh_pos len : ℕ) (r : Reader)
    → bh_pos + r.pos + r.in_len ≤ bh.b_size
    → r.pos + r.in_len < len
    → (r' : Reader) × (read_block bh bh_pos len r ≡ ok (r.in_len, len - r.pos - r.in_len, r'))
      × (r'.pos ≡ 0)
      × (r'.in_len ≡ 0)
unfolding read_block
read_block_short bh bh_pos len r room short = (
  record {
    user = copy r.user r.in_buf (λ k. bh.b_data (bh_pos + r.pos + k)) r.in_len;
    in_buf = r.in_buf + r.in_len;
    in_len = r.in_len - r.in_len;
    pos = 0;
  },
  ground arith,
  refl,
  omega arith,
)

-- What the loop does behind a round that leaves some of the extent.
module _ (fuel : ℕ) (dev : Device) (start : ℕ) (bh : Buffer) (bh_pos len read con left : ℕ)
    (r r' : Reader) (round : read_block bh bh_pos len r ≡ ok (con, left, r'))
    (more : left ≢ 0) where
  pub read_loop_on :
      dev.readable (start + 1) ≡ true
      → read_loop (suc fuel) dev start bh bh_pos len read r
        ≡ read_loop fuel dev
            (start + 1)
            (record { b_size = dev.block_size; b_data = dev.blocks (start + 1) })
            0
            left
            (read + con)
            r'
  unfolding read_loop sb_bread
  read_loop_on there = ground (arith, round, more, there)

  read_loop_off :
      dev.readable (start + 1) ≡ false
      → read_loop (suc fuel) dev start bh bh_pos len read r ≡ ok (minus eio, r')
  unfolding read_loop sb_bread
  read_loop_off here = ground (arith, round, more, here)

-- From then on the loop goes from block to block, up to one that cannot be read.
read_loop_stuck :
    (k fuel : ℕ) (dev : Device) (start : ℕ) (bh : Buffer) (bh_pos len read : ℕ) (r : Reader)
    → bh_pos + r.pos + r.in_len ≤ bh.b_size
    → r.pos + r.in_len < len
    → dev.readable (start + 1 + k) ≡ false
    → k < fuel
    → (r' : Reader) × (read_loop fuel dev start bh bh_pos len read r ≡ ok (minus eio, r'))
read_loop_stuck k zero dev start bh bh_pos len read r room short shut enough = absurd (omega arith)
read_loop_stuck k (suc fuel) dev start bh bh_pos len read r room short shut enough =
    let (r1, round, at_end, no_room) = read_block_short bh bh_pos len r room short in
    let left : len - r.pos - r.in_len ≢ 0 = omega arith in
    elim (Bool-cases (dev.readable (start + 1))) [
      | inr here ↦ (r1, read_loop_off fuel dev start bh bh_pos len read _ _ r r1 round left here)
      | inl there ↦
          let bh1 : Buffer = record { b_size = dev.block_size; b_data = dev.blocks (start + 1) } in
          let (r2, later) =
            read_loop_stuck (k - 1) fuel dev (start + 1) bh1 0 (len - r.pos - r.in_len)
              (read + r.in_len) r1 (omega arith) (omega arith)
              (ap dev.readable (further there) ∙ shut) (omega (arith, not_next there)) in
          (r2, read_loop_on fuel dev start bh bh_pos len read _ _ r r1 round left there ∙ later)
    ]
  where
    -- The block that cannot be read is not the next one.
    not_next : dev.readable (start + 1) ≡ true → k ≢ 0
    not_next there none_left =
        let next : start + 1 ≡ start + 1 + k = omega arith in cc (there, shut, ap dev.readable next)

    further : dev.readable (start + 1) ≡ true → start + 1 + 1 + (k - 1) ≡ start + 1 + k
    further there = omega (arith, not_next there)

-- A read that lies in the first block of an extent and ends before the extent does is not
-- answered: behind the bytes that it wanted it goes on from block to block, and where it comes to
-- one that cannot be read it gives -EIO. The fuel is enough for the blocks up to that one.
pub read_file_extent_short :
    (k fuel : ℕ) (dev : Device) (start : ℕ) (r : Reader)
    → dev.readable start ≡ true
    → load32 (dev.blocks start) 0 ≡ file_magic
    → 16 + r.pos + r.in_len ≤ dev.block_size
    → r.pos + r.in_len < (header_at (dev.blocks start)).length
    → dev.readable (start + 1 + k) ≡ false
    → k < fuel
    → (r' : Reader) × (read_file_extent fuel dev start r
        ≡ ok (minus eio, (header_at (dev.blocks start)).next, r'))
unfolding read_file_extent sb_bread
read_file_extent_short k fuel dev start r shown magic room short shut enough =
    let bh : Buffer = record { b_size = dev.block_size; b_data = dev.blocks start } in
    let (r', loop) =
      read_loop_stuck k fuel dev start bh 16 (header_at (dev.blocks start)).length 0 r room short
        shut enough in
    (
      r',
      rw (read_file_extent, shown, parse_file_extent-header_at bh (omega arith) magic, loop) refl,
    )
