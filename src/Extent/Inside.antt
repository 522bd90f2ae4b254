-- ===== src/Extent/Inside.antt =====
-- A write and a read that lie in the first block of an extent.
use spfs.Base.{
  ℕ, suc, ◌+◌, ◌%◌, ◌^◌, ◌≤◌, ◌<◌, ◌≡◌, ◌≢◌, refl, Bool, true, false, ltb-true, ap, ◌∙◌, arith,
  none, ok,
}
use spfs.Wire.{Bytes, Buffer, load32, copy}
use spfs.Device.{Device, sb_bread, put}
use spfs.Device.Laws.{put_self, put_ne, put-readable, put-block_size}
use spfs.Extent.{
  Header, Progress, count, file_magic, do_write, read_block, read_loop, read_file_extent,
  write_tail, write_header, link_extra, write_file_extent,
}
use spfs.Extent.Headers.{header_at, headed, make_file_extent-headed, parse_file_extent-header_at}

do_write_inside :
    (user : Bytes) (bh : Buffer) (in_buf n len : ℕ)
    → 16 + len + n ≤ bh.b_size
    → do_write user bh 16 (record { in_buf = in_buf; in_len = n; pos = len })
      ≡ ok (
        n,
        record bh { b_data = copy bh.b_data (16 + len) (λ k. user (in_buf + k)) n },
        record { in_buf = in_buf + n; in_len = 0; pos = 0 },
      )
unfolding do_write
do_write_inside user bh in_buf n len room = ground arith

read_block_whole :
    (bh : Buffer) (user : Bytes) (in_buf n : ℕ)
    → 16 + n ≤ bh.b_size
    → read_block bh 16 n (record { user = user; in_buf = in_buf; in_len = n; pos = 0 })
      ≡ ok (
        n,
        0,
        record {
          user = copy user in_buf (λ k. bh.b_data (16 + k)) n;
          in_buf = in_buf + n;
          in_len = 0;
          pos = 0;
        },
      )
unfolding read_block
read_block_whole bh user in_buf n room = ground arith

pub read_file_extent_whole :
    (fuel : ℕ) (dev : Device) (start : ℕ) (user : Bytes) (in_buf n : ℕ)
    → dev.readable start ≡ true
    → load32 (dev.blocks start) 0 ≡ file_magic
    → (header_at (dev.blocks start)).length ≡ n
    → 16 + n ≤ dev.block_size
    → read_file_extent
        (suc fuel)
        dev
        start
        (record { user = user; in_buf = in_buf; in_len = n; pos = 0 })
      ≡ ok (
        count n,
        (header_at (dev.blocks start)).next,
        record {
          user = copy user in_buf (λ k. dev.blocks start (16 + k)) n;
          in_buf = in_buf + n;
          in_len = 0;
          pos = 0;
        },
      )
unfolding read_file_extent sb_bread read_loop
read_file_extent_whole fuel dev start user in_buf n shown magic len room =
    rw
      (
        read_file_extent,
        shown,
        parse_file_extent-header_at (record { b_size = dev.block_size; b_data = dev.blocks start })
            (omega arith) magic,
        len,
        read_block_whole (record { b_size = dev.block_size; b_data = dev.blocks start }) user in_buf
            n room,
      )
      (ground arith)

-- The bytes of the first block of an extent after `n` bytes of the caller were appended to the
-- `header.length` bytes that it had.
abbrev pub appended : Bytes → Header → (user : Bytes) → (in_buf n : ℕ) → Bytes
appended m header user in_buf n =
    headed (copy m (16 + header.length) (λ k. user (in_buf + k)) n)
      (record header { length = (header.length + n) % 2 ^ 32 })

link_extra_none : (s : Progress) → s.extra ≡ 0 → link_extra s ≡ s
unfolding link_extra
link_extra_none s h = ground arith

write_tail_done :
    (fuel : ℕ) (user : Bytes) (block_size it end : ℕ) (s : Progress) (in_buf pos : ℕ)
    → write_tail
        (suc fuel)
        user
        block_size
        it
        end
        (record s { w = record { in_buf = in_buf; in_len = 0; pos = pos } })
      ≡ ok (none, record s { w = record { in_buf = in_buf; in_len = 0; pos = pos } })
unfolding write_tail
write_tail_done fuel user block_size it end s in_buf pos = refl

write_header_dirty :
    (start : ℕ) (s : Progress)
    → 16 ≤ s.dev.block_size
    → write_header start (record s { dirty = true })
      ≡ ok (record s {
        dev =
            put s.dev start
              (record { b_size = s.dev.block_size; b_data = headed (s.dev.blocks start) s.header });
        dirty = true;
      })
unfolding write_header
write_header_dirty start s room =
    rw
      (make_file_extent-headed (record { b_size = s.dev.block_size; b_data = s.dev.blocks start })
        s.header room)
      refl

pub write_file_extent_inside :
    (fuel : ℕ) (user : Bytes) (block_size start in_buf n : ℕ) (dev : Device) (old : Header)
    (dirty : Bool)
    → dev.readable start ≡ true
    → load32 (dev.blocks start) 0 ≡ file_magic
    → 0 < n
    → 16 + (header_at (dev.blocks start)).length + n ≤ dev.block_size
    → (s : Progress) × (write_file_extent (suc fuel) user block_size start (record {
      dev = dev;
      header = old;
      dirty = dirty;
      extra = 0;
      w = record { in_buf = in_buf; in_len = n; pos = (header_at (dev.blocks start)).length };
    })
        ≡ ok (count n, s))
      × (s.dev.blocks start
          ≡ appended (dev.blocks start) (header_at (dev.blocks start)) user in_buf n)
      × (s.dev.readable ≡ dev.readable)
      × (s.dev.block_size ≡ dev.block_size)
      × ((k : ℕ) → k ≢ start → s.dev.blocks k ≡ dev.blocks k)
unfolding write_file_extent sb_bread
write_file_extent_inside fuel user block_size start in_buf n dev old dirty shown magic some_bytes
      room =
    let m = dev.blocks start in
    let header = header_at m in
    let bh : Buffer = record {
      b_size = dev.block_size;
      b_data = copy m (16 + header.length) (λ k. user (in_buf + k)) n;
    } in
    let dev' = put dev start bh in
    let header' : Header = record header { length = (header.length + n) % 2 ^ 32 } in
    let full : Buffer = record {
      b_size = dev'.block_size;
      b_data = headed (dev'.blocks start) header';
    } in
    let after : Progress = record {
      dev = dev';
      header = header';
      dirty = true;
      extra = 0;
      w = record { in_buf = in_buf + n; in_len = 0; pos = 0 };
    } in
    (
      record after { dev = put dev' start full },
      rw
          (
            write_file_extent,
            shown,
            parse_file_extent-header_at (record { b_size = dev.block_size; b_data = m })
                (omega arith) magic,
            link_extra_none
                (record {
                  dev = dev;
                  header = header;
                  dirty = false;
                  extra = 0;
                  w = record { in_buf = in_buf; in_len = n; pos = header.length };
                })
                refl,
            do_write_inside user (record { b_size = dev.block_size; b_data = m }) in_buf n
                header.length room,
            ltb-true 0 n some_bytes,
            write_tail_done fuel user block_size (start + 1) (start + header.capacity) after
                (in_buf + n) 0,
            write_header_dirty start after (omega (arith, put-block_size dev start bh)),
          )
          refl,
      put_self dev' start full ∙ ap (λ q. headed q header') (put_self dev start bh),
      put-readable dev' start full ∙ put-readable dev start bh,
      put-block_size dev' start full ∙ put-block_size dev start bh,
      λ k h. put_ne dev' start full k h ∙ put_ne dev start bh k h,
    )
