-- ===== src/Extent/Whole.antt =====
-- Reads with room for the rest of an extent, over all of its blocks.
use spfs.Base.{
  sym, ℕ, zero, suc, ◌+◌, ◌-◌, ◌*◌, ◌/◌, ◌≤◌, ◌<◌, ◌≡◌, refl, true, inl, inr, arith, ok, ap, ◌∙◌,
}
use native.Mathlib.Nat.{zero-div, add-mul, div_self, add-div_left}
use spfs.Wire.{Buffer, load32}
use spfs.Device.{Device, sb_bread}
use spfs.Extent.{Reader, count, file_magic, read_block, read_loop, read_file_extent}
use spfs.Extent.Short.{read_loop_on}
use spfs.Extent.Headers.{header_at, parse_file_extent-header_at}
use spfs.Extent.Rounds.{
  here, copied, read_block-IsGiven, min_left, min_right, flat_next, flat, flat_here, less_cases,
  IsGiven, IsGiven-append, IsGiven-same,
}

-- The block `n` in its buffer.
abbrev buffer : Device → ℕ → Buffer
buffer dev n = record { b_size = dev.block_size; b_data = dev.blocks n }

-- Every block that has one of the `n` bytes from the beginning of the block `start` on can be read.
abbrev pub AllReadable : Device → (start n : ℕ) → Type 0
AllReadable dev start n = (p : ℕ) → p < n → dev.readable (start + p / dev.block_size) ≡ true

AllReadable-next :
    (dev : Device) (start n m : ℕ)
    → 0 < dev.block_size
    → dev.block_size + m ≤ n
    → AllReadable dev start n
    → AllReadable dev (start + 1) m
AllReadable-next dev start n m some_bytes fits all p h =
    ap dev.readable (omega arith ∙ ap (λ d. start + d) (sym (add-div_left p some_bytes)))
    ∙ all (dev.block_size + p) (omega arith)

readable_next :
    (dev : Device) (start n : ℕ)
    → 0 < dev.block_size
    → dev.block_size < n
    → AllReadable dev start n
    → dev.readable (start + 1) ≡ true
readable_next dev start n some_bytes more all =
    ap dev.readable (ap (λ d. start + d) (sym (div_self some_bytes))) ∙ all dev.block_size more

read_loop_last :
    (fuel : ℕ) (dev : Device) (start : ℕ) (bh : Buffer) (bh_pos len read con left : ℕ)
    (r r' : Reader)
    → read_block bh bh_pos len r ≡ ok (con, left, r')
    → left ≡ 0
    → read_loop (suc fuel) dev start bh bh_pos len read r ≡ ok (count (read + con), r')
unfolding read_loop
read_loop_last fuel dev start bh bh_pos len read con left r r' round none_left =
    ground (arith, round, none_left)

fuel_left : (fuel n : ℕ) → n < suc fuel * n → 0 < fuel
fuel_left zero n h = omega arith
fuel_left (suc fuel) n h = omega arith

fuel_next : (fuel n m : ℕ) → n + m ≤ suc fuel * n → m ≤ fuel * n
fuel_next fuel n m h = omega (arith, add-mul 1 fuel n)

read_loop-IsGiven :
    (fuel : ℕ) (dev : Device) (start bh_pos len read : ℕ) (r : Reader)
    → 0 < dev.block_size
    → bh_pos ≤ dev.block_size
    → 0 < fuel
    → bh_pos + len ≤ fuel * dev.block_size
    → len ≤ r.pos + r.in_len
    → AllReadable dev start (bh_pos + len)
    → (r' : Reader) × (read_loop fuel dev start (buffer dev start) bh_pos len read r
        ≡ ok (count (read + (len - r.pos)), r'))
      × IsGiven len (λ k. flat dev start (bh_pos + k)) r r'
unfolding read_loop
read_loop-IsGiven zero dev start bh_pos len read r some_bytes inside enough fuel_fits room all =
    absurd (omega arith)
read_loop-IsGiven (suc fuel) dev start bh_pos len read r some_bytes inside enough fuel_fits room
      all =
    let bh = buffer dev start in
    let rest = dev.block_size - bh_pos in
    let (r1, round, given) = read_block-IsGiven bh bh_pos len r inside room in
    elim (less_cases rest len) [
      | inr last ↦
          let whole : here bh bh_pos len r ≡ len = min_right rest len last in
          (
            r1,
            read_loop_last fuel dev start bh bh_pos len read _ _ r r1 round (omega (arith, whole))
                ∙ ap (λ n. ok (count (read + (n - r.pos)), r1)) whole,
            IsGiven-same (here bh bh_pos len r) len (λ k. bh.b_data (bh_pos + k))
                (λ k. flat dev start (bh_pos + k)) r r1 whole
                (λ k h. sym (flat_here dev start (bh_pos + k) (omega arith))) given,
          )
      | inl more ↦
          let full : here bh bh_pos len r ≡ rest = min_left rest len more in
          let (r2, later, given') =
            read_loop-IsGiven fuel dev (start + 1) 0 (len - here bh bh_pos len r)
              (read + copied bh bh_pos len r) r1 some_bytes (omega arith)
              (fuel_left fuel dev.block_size (omega arith))
              (fuel_next fuel dev.block_size (0 + (len - here bh bh_pos len r))
                (omega (arith, full)))
              (omega (arith, full, given.pos, given.in_len))
              (AllReadable-next dev start (bh_pos + len) (0 + (len - here bh bh_pos len r))
                some_bytes (omega (arith, full)) all) in
          (
            r2,
            read_loop_on fuel dev start bh bh_pos len read _ _ r r1 round (omega (arith, full))
                  (readable_next dev start (bh_pos + len) some_bytes (omega arith) all)
                ∙ later
                ∙ ap (λ n. ok (count n, r2)) (omega (arith, full, given.pos)),
            IsGiven-same (rest + (len - rest)) len (λ k. flat dev start (bh_pos + k)) _ r r2
                (omega arith) (λ k h. refl)
                (IsGiven-append rest (len - rest) _ (λ k. flat dev (start + 1) (0 + k)) r r1 r2
                  (λ k h.
                    ap (flat dev start) (omega arith)
                    ∙ flat_next dev start k some_bytes
                    ∙ ap (flat dev (start + 1)) (omega arith))
                  (IsGiven-same (here bh bh_pos len r) rest (λ k. bh.b_data (bh_pos + k)) _ r r1
                    full (λ k h. sym (flat_here dev start (bh_pos + k) (omega arith))) given)
                  (IsGiven-same (len - here bh bh_pos len r) (len - rest)
                    (λ k. flat dev (start + 1) (0 + k)) _ r1 r2 (omega (arith, full)) (λ k h. refl)
                    given')),
          )
    ]

-- A read with room for the rest of an extent gives the rest of it.
pub read_file_extent-IsGiven :
    (fuel : ℕ) (dev : Device) (start : ℕ) (r : Reader)
    → 16 ≤ dev.block_size
    → 0 < fuel
    → load32 (dev.blocks start) 0 ≡ file_magic
    → 16 + (header_at (dev.blocks start)).length ≤ fuel * dev.block_size
    → (header_at (dev.blocks start)).length ≤ r.pos + r.in_len
    → AllReadable dev start (16 + (header_at (dev.blocks start)).length)
    → (r' : Reader) × (read_file_extent fuel dev start r
        ≡ ok (
          count ((header_at (dev.blocks start)).length - r.pos),
          (header_at (dev.blocks start)).next,
          r',
        ))
      × IsGiven (header_at (dev.blocks start)).length (λ k. flat dev start (16 + k)) r r'
unfolding read_file_extent sb_bread
read_file_extent-IsGiven fuel dev start r block enough magic fits room all =
    let header = header_at (dev.blocks start) in
    let shown : dev.readable start ≡ true =
      ap dev.readable (omega arith ∙ ap (λ d. start + d) (sym (zero-div dev.block_size)))
      ∙ all 0 (omega arith) in
    let (r', loop, given) =
      read_loop-IsGiven fuel dev start 16 header.length 0 r (omega arith) block enough fits room
        all in
    (
      r',
      rw (read_file_extent, shown, parse_file_extent-header_at (buffer dev start) block magic, loop)
          (ap (λ n. ok (count n, header.next, r')) (omega arith)),
      given,
    )
