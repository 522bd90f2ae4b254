-- ===== src/Wire/Laws.antt =====
-- What a read finds after a write, and what a write leaves alone.
use spfs.Base.{ℕ, ◌+◌, ◌/◌, ◌%◌, ◌^◌, ◌≤◌, ◌<◌, ◌≡◌, ◌⊎◌, arith, ok, err, bug}
use spfs.Wire.{
  Bytes, Buffer, refused, load16, load32, load64, store16, store32, store64, copy, with_room,
  read_u16, read_u32, read_ino, read_sector, read_str, write_u16, write_u32, write_str,
}

-- The bytes outside a field are left alone.
pub store16_ne : (m : Bytes) (p v q : ℕ) → (q < p) ⊎ (p + 2 ≤ q) → store16 m p v q ≡ m q
unfolding store16
store16_ne m p v q h = ground arith

pub store32_ne : (m : Bytes) (p v q : ℕ) → (q < p) ⊎ (p + 4 ≤ q) → store32 m p v q ≡ m q
unfolding store32
store32_ne m p v q h = ground arith

pub store64_ne : (m : Bytes) (p v q : ℕ) → (q < p) ⊎ (p + 8 ≤ q) → store64 m p v q ≡ m q
unfolding store64
store64_ne m p v q h = ground arith

pub copy_ne :
    (m : Bytes) (p : ℕ) (src : Bytes) (len q : ℕ)
    → (q < p) ⊎ (p + len ≤ q)
    → copy m p src len q ≡ m q
unfolding copy
copy_ne m p src len q h = ground arith

-- An integer is read back reduced to the width of its field.
pub load16-store16 : (m : Bytes) (p v : ℕ) → load16 (store16 m p v) p ≡ v % 2 ^ 16
unfolding load16 store16
load16-store16 m p v = ground arith

pub load32-store32 : (m : Bytes) (p v : ℕ) → load32 (store32 m p v) p ≡ v % 2 ^ 32
unfolding load32 store32
load32-store32 m p v = ground arith

-- A field is not changed by a write beside it.
pub load32-store32_ne :
    (m : Bytes) (p v q : ℕ) → (q + 4 ≤ p) ⊎ (p + 4 ≤ q) → load32 (store32 m p v) q ≡ load32 m q
unfolding load32
load32-store32_ne m p v q h = ground (
  arith,
  store32_ne m p v q,
  store32_ne m p v (q + 1),
  store32_ne m p v (q + 2),
  store32_ne m p v (q + 3),
)

pub load64-store64 : (m : Bytes) (p v : ℕ) → load64 (store64 m p v) p ≡ v % 2 ^ 64
unfolding load64 store64
load64-store64 m p v = ground (
  arith,
  load32-store32 m p (v / 2 ^ 32),
  load32-store32 (store32 m p (v / 2 ^ 32)) (p + 4) v,
  load32-store32_ne (store32 m p (v / 2 ^ 32)) (p + 4) v p,
)

pub copy_self :
    (m : Bytes) (p : ℕ) (src : Bytes) (len k : ℕ) → k < len → copy m p src len (p + k) ≡ src k
unfolding copy
copy_self m p src len k h = ground arith

pub load32-copy_ne :
    (m : Bytes) (p : ℕ) (src : Bytes) (len q : ℕ)
    → (q + 4 ≤ p) ⊎ (p + len ≤ q)
    → load32 (copy m p src len) q ≡ load32 m q
unfolding load32
load32-copy_ne m p src len q h = ground (
  arith,
  copy_ne m p src len q,
  copy_ne m p src len (q + 1),
  copy_ne m p src len (q + 2),
  copy_ne m p src len (q + 3),
)

pub load32-copy_self :
    (m : Bytes) (p : ℕ) (src : Bytes) (len q k : ℕ)
    → q ≡ p + k
    → k + 4 ≤ len
    → load32 (copy m p src len) q ≡ load32 src k
unfolding load32 copy
load32-copy_self m p src len q k e h = ground arith

-- A block of a larger memory.
pub load32_shift : (m : Bytes) (a k c : ℕ) → a + k ≡ c → load32 (λ q. m (a + q)) k ≡ load32 m c
unfolding load32
load32_shift m a k c e = ground arith

-- With room, a read gives the bytes at the position, and a write stores its value there.
module _ (bh : Buffer) (pos : ℕ) where
  module _ {A : Type 0} (need : ℕ) (a : A) where
    pub with_room-ok : pos + need ≤ bh.b_size → with_room bh pos need a ≡ ok a
    unfolding with_room
    with_room-ok h = ground arith

    pub with_room-refused :
        pos ≤ bh.b_size → bh.b_size < pos + need → with_room bh pos need a ≡ err refused
    unfolding with_room
    with_room-refused h k = ground arith

    pub with_room-bug : bh.b_size < pos → with_room bh pos need a ≡ bug
    unfolding with_room
    with_room-bug h = ground arith

  pub read_u16-ok : pos + 2 ≤ bh.b_size → read_u16 bh pos ≡ ok (load16 bh.b_data pos, pos + 2)
  unfolding read_u16
  read_u16-ok h = with_room-ok 2 _ h

  pub read_u32-ok : pos + 4 ≤ bh.b_size → read_u32 bh pos ≡ ok (load32 bh.b_data pos, pos + 4)
  unfolding read_u32
  read_u32-ok h = with_room-ok 4 _ h

  pub read_ino-ok : pos + 8 ≤ bh.b_size → read_ino bh pos ≡ ok (load32 bh.b_data pos, pos + 4)
  unfolding read_ino
  read_ino-ok h = with_room-ok 8 _ h

  pub read_sector-ok : pos + 8 ≤ bh.b_size → read_sector bh pos ≡ ok (load32 bh.b_data pos, pos + 4)
  unfolding read_sector
  read_sector-ok h = with_room-ok 8 _ h

  pub write_u16-ok :
      (val : ℕ)
      → pos + 2 ≤ bh.b_size
      → write_u16 bh pos val ≡ ok (record bh { b_data = store16 bh.b_data pos val }, pos + 2)
  unfolding write_u16
  write_u16-ok val h = with_room-ok 2 _ h

  pub write_u32-ok :
      (val : ℕ)
      → pos + 4 ≤ bh.b_size
      → write_u32 bh pos val ≡ ok (record bh { b_data = store32 bh.b_data pos val }, pos + 4)
  unfolding write_u32
  write_u32-ok val h = with_room-ok 4 _ h

  pub read_str-ok :
      (len : ℕ)
      → pos + len ≤ bh.b_size
      → read_str bh pos len ≡ ok ((λ k. bh.b_data (pos + k)), pos + len)
  unfolding read_str
  read_str-ok len h = with_room-ok len _ h

  pub write_str-ok :
      (frame str : Bytes) (len : ℕ)
      → pos + len ≤ bh.b_size
      → write_str frame bh pos str len
        ≡ ok (record bh { b_data = copy bh.b_data pos frame len }, pos + len)
  unfolding write_str
  write_str-ok frame str len h = with_room-ok len _ h
