-- ===== src/Extent/Copies.antt =====
-- Bytes that are appended to the first block of an extent, and read back.
use spfs.Base.{ℕ, suc, ◌+◌, ◌%◌, ◌^◌, ◌≤◌, ◌<◌, ◌≡◌, ◌≢◌, refl, Bool, true, ap, ◌∙◌, arith, ok}
use spfs.Wire.{Bytes, load32, copy}
use spfs.Wire.Laws.{copy_self}
use spfs.Device.{Device}
use spfs.Extent.Inside.{appended, read_file_extent_whole, write_file_extent_inside}
use spfs.Extent.{Header, Reader, Progress, count, file_magic, read_file_extent, write_file_extent}
use spfs.Extent.Headers.{header_at, headed_ne, headed-magic, headed-IsCut}

pub appended-magic :
    (m : Bytes) (header : Header) (user : Bytes) (in_buf n : ℕ)
    → load32 (appended m header user in_buf n) 0 ≡ file_magic
appended-magic m header user in_buf n = headed-magic _ _

pub appended-length :
    (m : Bytes) (header : Header) (user : Bytes) (in_buf n : ℕ)
    → header.length + n < 2 ^ 32
    → (header_at (appended m header user in_buf n)).length ≡ header.length + n
appended-length m header user in_buf n small = omega (
  arith,
  (headed-IsCut (copy m (16 + header.length) (λ k. user (in_buf + k)) n)
      (record header { length = (header.length + n) % 2 ^ 32 })).length,
)

-- The bytes that were there, and the new ones behind them.
pub appended_old :
    (m : Bytes) (header : Header) (user : Bytes) (in_buf n k : ℕ)
    → k < header.length
    → appended m header user in_buf n (16 + k) ≡ m (16 + k)
unfolding copy
appended_old m header user in_buf n k h =
    headed_ne (copy m (16 + header.length) (λ k. user (in_buf + k)) n) _ (16 + k) (omega arith)
    ∙ ground arith

pub appended_new :
    (m : Bytes) (header : Header) (user : Bytes) (in_buf n k j : ℕ)
    → k < n
    → j ≡ header.length + k
    → appended m header user in_buf n (16 + j) ≡ user (in_buf + k)
unfolding copy
appended_new m header user in_buf n k j h e =
    headed_ne (copy m (16 + header.length) (λ k. user (in_buf + k)) n) _ (16 + j) (omega arith)
    ∙ ground arith

-- `n` bytes are appended to an extent whose bytes all lie in its first block, with room for them
-- there. The write counts `n` and changes no other block. Whoever then reads the extent from its
-- beginning, with just that much room, gets all of its bytes: the old ones, and the `n` behind
-- them.
pub read-write_file_extent :
    (fuel : ℕ) (user : Bytes) (block_size start in_buf n : ℕ) (dev : Device) (old : Header)
    (dirty : Bool) (memory : Bytes) (at : ℕ)
    → dev.readable start ≡ true
    → load32 (dev.blocks start) 0 ≡ file_magic
    → 0 < n
    → 16 + (header_at (dev.blocks start)).length + n ≤ dev.block_size
    → (header_at (dev.blocks start)).length + n < 2 ^ 32
    → (s : Progress) × (r : Reader) × (write_file_extent (suc fuel) user block_size start (record {
      dev = dev;
      header = old;
      dirty = dirty;
      extra = 0;
      w = record { in_buf = in_buf; in_len = n; pos = (header_at (dev.blocks start)).length };
    })
        ≡ ok (count n, s))
      × ((k : ℕ) → k ≢ start → s.dev.blocks k ≡ dev.blocks k)
      × (read_file_extent (suc fuel) s.dev start (record {
        user = memory;
        in_buf = at;
        in_len = (header_at (dev.blocks start)).length + n;
        pos = 0;
      })
          ≡ ok (
            count ((header_at (dev.blocks start)).length + n),
            (header_at (s.dev.blocks start)).next,
            r,
          ))
      × ((k : ℕ)
          → k < (header_at (dev.blocks start)).length
          → r.user (at + k) ≡ dev.blocks start (16 + k))
      × ((k : ℕ)
          → k < n
          → r.user (at + ((header_at (dev.blocks start)).length + k)) ≡ user (in_buf + k))
read-write_file_extent fuel user block_size start in_buf n dev old dirty memory at shown magic
      some_bytes room small =
    let m = dev.blocks start in
    let header = header_at m in
    let len = header.length + n in
    let (s, written, content, readable, size, others) =
      write_file_extent_inside fuel user block_size start in_buf n dev old dirty shown magic
        some_bytes room in
    (
      s,
      record {
        user = copy memory at (λ k. s.dev.blocks start (16 + k)) len;
        in_buf = at + len;
        in_len = 0;
        pos = 0;
      },
      written,
      others,
      read_file_extent_whole fuel s.dev start memory at len (ap (λ f. f start) readable ∙ shown)
          (ap (λ q. load32 q 0) content ∙ appended-magic m header user in_buf n)
          (ap (λ q. (header_at q).length) content ∙ appended-length m header user in_buf n small)
          (omega arith),
      λ k h.
          copy_self memory at (λ k. s.dev.blocks start (16 + k)) len k (omega arith)
          ∙ ap (λ q. q (16 + k)) content
          ∙ appended_old m header user in_buf n k h,
      λ k h.
          copy_self memory at (λ k. s.dev.blocks start (16 + k)) len (header.length + k)
            (omega arith)
          ∙ ap (λ q. q (16 + (header.length + k))) content
          ∙ appended_new m header user in_buf n k (header.length + k) h refl,
    )
