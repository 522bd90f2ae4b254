-- ===== src/Wire.antt =====
-- util.c: the reads and writes of big-endian fields at a position of a buffer head's block, with
-- the bytes of memory that they are copied to and from.
pub mod Laws
pub mod Fields
use spfs.Base.{
  ℕ, ◌+◌, ◌-◌, ◌*◌, ◌/◌, ◌%◌, ◌^◌, Bool, ◌&&◌, Option, some, ltb, leb, ◌==◌, if◌then◌else◌, Res, ok,
  err, bug, out_of_fuel, ◌>>=◌, bug_on,
}

-- A region of memory: the byte at each offset.
abbrev pub Bytes : Type 0
Bytes = ℕ → ℕ

-- `memcpy` of a big-endian integer into memory, `memcpy` out of it with the `be.._to_cpu` that
-- follows, and a `memcpy` of any bytes.
unfoldable pub load16 : Bytes → ℕ → ℕ
load16 m p = m p * 256 + m (p + 1)

unfoldable pub load32 : Bytes → ℕ → ℕ
load32 m p = ((m p * 256 + m (p + 1)) * 256 + m (p + 2)) * 256 + m (p + 3)

unfoldable pub load64 : Bytes → ℕ → ℕ
unfolding load32
load64 m p = load32 m p * 2 ^ 32 + load32 m (p + 4)

unfoldable pub store16 : Bytes → ℕ → ℕ → Bytes
store16 m p v q = if q == p then v / 2 ^ 8 % 256 else if q == p + 1 then v % 256 else m q

unfoldable pub store32 : Bytes → ℕ → ℕ → Bytes
store32 m p v q =
    if q == p
    then v / 2 ^ 24 % 256
    else if q == p + 1
    then v / 2 ^ 16 % 256
    else if q == p + 2
    then v / 2 ^ 8 % 256
    else if q == p + 3
    then v % 256
    else m q

unfoldable pub store64 : Bytes → ℕ → ℕ → Bytes
unfolding store32
store64 m p v = store32 (store32 m p (v / 2 ^ 32)) (p + 4) v

unfoldable pub copy : Bytes → ℕ → Bytes → ℕ → Bytes
copy m p src len q = if leb p q && ltb q (p + len) then src (q - p) else m q

-- `struct buffer_head`: `b_size` and `b_data`.
pub record Buffer : Type 0 where
  pub b_size : ℕ
  pub b_data : Bytes

-- The `false` of a read or a write, which leaves the position and the block as they were.
pub data Refused : Type 0 where
  refused : Refused

-- `spfs_sb_remaining`, then the test of each read and write: `need` bytes are wanted at `pos`.
unfoldable pub with_room : {A : Type 0} → Buffer → ℕ → ℕ → A → Res Refused A
with_room bh pos need a =
    bug_on (ltb bh.b_size pos) (if ltb (bh.b_size - pos) need then err refused else ok a)

-- A read gives the value and the new position.
unfoldable pub read_u16 : Buffer → ℕ → Res Refused (ℕ × ℕ)
unfolding with_room
read_u16 bh pos = with_room bh pos 2 (load16 bh.b_data pos, pos + 2)

unfoldable pub read_u32 : Buffer → ℕ → Res Refused (ℕ × ℕ)
unfolding with_room
read_u32 bh pos = with_room bh pos 4 (load32 bh.b_data pos, pos + 4)

unfoldable pub read_u64 : Buffer → ℕ → Res Refused (ℕ × ℕ)
unfolding with_room
read_u64 bh pos = with_room bh pos 8 (load64 bh.b_data pos, pos + 8)

-- `sizeof(*out)` is 8 for an `unsigned long` and a `sector_t`; 4 bytes are read.
unfoldable pub read_ino : Buffer → ℕ → Res Refused (ℕ × ℕ)
unfolding with_room
read_ino bh pos = with_room bh pos 8 (load32 bh.b_data pos, pos + 4)

unfoldable pub read_sector : Buffer → ℕ → Res Refused (ℕ × ℕ)
unfolding with_room
read_sector bh pos = with_room bh pos 8 (load32 bh.b_data pos, pos + 4)

-- The `len` bytes at the position: the block seen from there.
unfoldable pub read_str : Buffer → ℕ → ℕ → Res Refused (Bytes × ℕ)
unfolding with_room
read_str bh pos len = with_room bh pos len ((λ k. bh.b_data (pos + k)), pos + len)

-- A write gives the block and the new position. A value wider than the field loses its high bits.
unfoldable pub write_u16 : Buffer → ℕ → ℕ → Res Refused (Buffer × ℕ)
unfolding with_room
write_u16 bh pos val =
    with_room bh pos 2 (record bh { b_data = store16 bh.b_data pos val }, pos + 2)

unfoldable pub write_u32 : Buffer → ℕ → ℕ → Res Refused (Buffer × ℕ)
unfolding with_room
write_u32 bh pos val =
    with_room bh pos 4 (record bh { b_data = store32 bh.b_data pos val }, pos + 4)

unfoldable pub write_u64 : Buffer → ℕ → ℕ → Res Refused (Buffer × ℕ)
unfolding with_room
write_u64 bh pos val =
    with_room bh pos 8 (record bh { b_data = store64 bh.b_data pos val }, pos + 8)

unfoldable pub write_ino : Buffer → ℕ → ℕ → Res Refused (Buffer × ℕ)
unfolding with_room
write_ino bh pos val =
    with_room bh pos 8 (record bh { b_data = store32 bh.b_data pos val }, pos + 4)

unfoldable pub write_sector : Buffer → ℕ → ℕ → Res Refused (Buffer × ℕ)
unfolding with_room
write_sector bh pos val =
    with_room bh pos 8 (record bh { b_data = store32 bh.b_data pos val }, pos + 4)

-- `memcpy(bh->b_data + *pos, &str, len)`: what is copied is not the text at `str`, but the memory
-- at the address of the parameter `str` itself, `frame`.
unfoldable pub write_str :
    (frame : Bytes) → Buffer → ℕ → (str : Bytes) → ℕ → Res Refused (Buffer × ℕ)
unfolding with_room
write_str frame bh pos str len =
    with_room bh pos len (record bh { b_data = copy bh.b_data pos frame len }, pos + len)

-- A chain of writes with an early return: a failure code or none, the block as the writes before
-- left it, and the position.
abbrev pub Made : Type 0 → Type 0
Made E = Res E (Option E × Buffer × ℕ)

unfoldable pub or_stop :
    {E : Type 0} → E → Buffer → ℕ → Res Refused (Buffer × ℕ) → (Buffer → ℕ → Made E) → Made E
or_stop e bh pos (ok (bh', pos')) rest = rest bh' pos'
or_stop e bh pos (err refused) rest = ok (some e, bh, pos)
or_stop e bh pos bug rest = bug
or_stop e bh pos out_of_fuel rest = out_of_fuel
