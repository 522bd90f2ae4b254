-- ===== src/File/Whole.antt =====
-- `spfs_read` with room for the rest of the file, as a function of the bytes of the file.
use spfs.Base.{
  ==_false, ℕ, zero, suc, ◌+◌, ◌-◌, ◌*◌, ◌≤◌, ◌<◌, ◌≡◌, ◌≢◌, refl, true, false, Bool-cases, inl,
  inr, arith, ok, ap, ◌∙◌, ltb,
}
use spfs.Wire.{Bytes, load32}
use spfs.Device.{Device}
use spfs.Extent.{Reader, count, file_magic, read_file_extent}
use spfs.Extent.Headers.{header_at}
use spfs.Extent.Rounds.{flat, IsGiven, IsGiven-append, IsGiven-same}
use spfs.Extent.Whole.{AllReadable, read_file_extent-IsGiven}
use spfs.File.{OpenFile, s_isreg, read_from, read}

-- The extent at `start` holds the first of the `len` bytes of a file, in at most `blocks` blocks.
pub record IsExtent (dev : Device) (blocks start len : ℕ) (bytes : Bytes) : Type 0 where
  pub there : start ≢ 0
  pub magic : load32 (dev.blocks start) 0 ≡ file_magic
  pub part : (header_at (dev.blocks start)).length ≤ len
  pub fits : 16 + (header_at (dev.blocks start)).length ≤ blocks * dev.block_size
  pub readable : AllReadable dev start (16 + (header_at (dev.blocks start)).length)
  pub content :
      (k : ℕ) → k < (header_at (dev.blocks start)).length → flat dev start (16 + k) ≡ bytes k

-- The abstract view of a file: its `len` bytes, in as many extents, one behind the other.
unfoldable pub IsFile : Device → (blocks extents start len : ℕ) → Bytes → Type 0
IsFile dev blocks zero start len bytes = (start ≡ 0) × (len ≡ 0)
IsFile dev blocks (suc extents) start len bytes =
    let header = header_at (dev.blocks start) in
    IsExtent dev blocks start len bytes
    × IsFile dev blocks extents header.next (len - header.length) (λ k. bytes (header.length + k))

IsGiven-none : (len : ℕ) (bytes : Bytes) (r : Reader) → len ≡ 0 → IsGiven len bytes r r
IsGiven-none len bytes r none_left = record {
  pos = omega arith;
  in_len = omega arith;
  in_buf = omega arith;
  filled = λ k h. absurd (omega arith);
  before = λ k h. refl;
  after = λ k h. refl;
}

-- One extent of the loop.
module _ (blocks fuel : ℕ) (dev : Device) (m read con next : ℕ) (r r1 : Reader)
    (one : read_file_extent blocks dev (suc m) r ≡ ok (count con, next, r1)) where
  read_from_on :
      ltb 0 r1.in_len ≡ true
      → read_from blocks (suc fuel) dev (suc m) read r
        ≡ read_from blocks fuel dev next (read + con) r1
  unfolding read_from
  read_from_on more = rw (read_from, one) (ground (arith, more))

  read_from_off :
      ltb 0 r1.in_len ≡ false
      → read_from blocks (suc fuel) dev (suc m) read r ≡ ok (count (read + con), r1)
  unfolding read_from
  read_from_off full = rw (read_from, one) (ground (arith, full))

no_room : (n : ℕ) → ltb 0 n ≡ false → n ≡ 0
no_room n h = ground arith

-- The loop over the extents; it ends where there is no room left, perhaps before the last extent,
-- so that the position that is left says nothing.
read_from-IsGiven :
    (blocks extents fuel : ℕ) (dev : Device) (start read len : ℕ) (bytes : Bytes) (r : Reader)
    → 16 ≤ dev.block_size
    → 0 < blocks
    → extents < fuel
    → len ≤ r.pos + r.in_len
    → IsFile dev blocks extents start len bytes
    → (r' : Reader) × (pos : ℕ) × (read_from blocks fuel dev start read r
        ≡ ok (count (read + (len - r.pos)), record r' { pos = pos }))
      × IsGiven len bytes r r'
unfolding read_from IsFile
read_from-IsGiven blocks extents zero dev start read len bytes r block some enough room is =
    absurd (omega arith)
read_from-IsGiven blocks zero (suc fuel) dev zero read len bytes r block some enough room
      (first, nothing) =
    (r, r.pos, ap (λ n. ok (count n, r)) (omega arith), IsGiven-none len bytes r nothing)
read_from-IsGiven blocks zero (suc fuel) dev (suc start) read len bytes r block some enough room
      (first, nothing) =
    absurd (omega arith)
read_from-IsGiven blocks (suc extents) (suc fuel) dev zero read len bytes r block some enough room
      (is, rest) =
    absurd (is.there refl)
read_from-IsGiven blocks (suc extents) (suc fuel) dev (suc m) read len bytes r block some enough
      room (is, rest) =
    let header = header_at (dev.blocks (suc m)) in
    let n = header.length in
    let bytes' : Bytes = λ k. bytes (n + k) in
    let (r1, one, given) =
      read_file_extent-IsGiven blocks dev (suc m) r block some is.magic is.fits
        (omega (arith, is.part)) is.readable in
    let given1 = IsGiven-same n n _ bytes r r1 refl is.content given in
    let both : (r2 : Reader) → IsGiven (len - n) bytes' r1 r2 → IsGiven len bytes r r2 = λ r2 more.
      IsGiven-same (n + (len - n)) len bytes bytes r r2 (omega (arith, is.part)) (λ k h. refl)
        (IsGiven-append n (len - n) bytes bytes' r r1 r2 (λ k h. refl) given1 more) in
    elim (Bool-cases (ltb 0 r1.in_len)) [
      | inl more ↦
          let (r2, pos, later, given2) =
            read_from-IsGiven blocks extents fuel dev header.next (read + (n - r.pos)) (len - n)
              bytes' r1 block some (omega arith) (omega (arith, given.pos, given.in_len)) rest in
          (
            r2,
            pos,
            read_from_on blocks fuel dev m read (n - r.pos) header.next r r1 one more
                ∙ later
                ∙ ap (λ c. ok (count c, record r2 { pos = pos }))
                    (omega (arith, given.pos, is.part)),
            both r2 given2,
          )
      | inr full ↦
          let nothing = no_room r1.in_len full in
          let r2 : Reader = record r1 { pos = r1.pos - (len - n) } in
          (
            r2,
            r1.pos,
            read_from_off blocks fuel dev m read (n - r.pos) header.next r r1 one full
                ∙ ap (λ c. ok (count c, r1)) (omega (arith, given.in_len, nothing)),
            both r2 (record {
              pos = refl;
              in_len = omega (arith, nothing);
              in_buf = omega (arith, given.pos, given.in_len, nothing);
              filled = λ k h. absurd (omega (arith, given.pos, given.in_len, nothing));
              before = λ k h. refl;
              after = λ k h. refl;
            }),
          )
    ]

-- A regular file that is not locked, with `len` bytes in some extents, is read from any position,
-- with room for the rest of it. `spfs_read` counts the bytes behind the position, moves the
-- position by them, puts just them into the memory of the caller, and leaves the file as it was.
pub read-IsFile :
    (blocks extents fuel : ℕ) (file : OpenFile) (len : ℕ) (bytes user : Bytes)
    (in_buf in_len ppos : ℕ)
    → s_isreg file.inode.i_mode ≡ true
    → file.locked ≡ false
    → 16 ≤ file.tree.dev.block_size
    → 0 < blocks
    → extents < fuel
    → in_len ≢ 0
    → len ≤ ppos + in_len
    → IsFile file.tree.dev blocks extents file.inode.start len bytes
    → (user' : Bytes) × (read blocks fuel file user in_buf in_len ppos
        ≡ ok (count (len - ppos), ppos + (len - ppos), user', file))
      × ((k : ℕ) → k < len - ppos → user' (in_buf + k) ≡ bytes (ppos + k))
      × ((k : ℕ) → k < in_buf → user' k ≡ user k)
      × ((k : ℕ) → in_buf + (len - ppos) ≤ k → user' k ≡ user k)
unfolding read
read-IsFile blocks extents fuel file len bytes user in_buf in_len ppos regular free block some
      enough some_room room is =
    let r : Reader = record { user = user; in_buf = in_buf; in_len = in_len; pos = ppos } in
    let (r', pos, loop, given) =
      read_from-IsGiven blocks extents fuel file.tree.dev file.inode.start 0 len bytes r block some
        enough room is in
    (
      r'.user,
      rw (read, ==_false in_len 0 some_room, regular, free, loop)
          (ap (λ n. ok (count n, ppos + n, r'.user, record file { locked = false })) (omega arith)),
      given.filled,
      given.before,
      given.after,
    )
