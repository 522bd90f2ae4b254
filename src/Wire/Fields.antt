-- ===== src/Wire/Fields.antt =====
-- The contract of util.c: each integer field, whatever its width, round-trips and keeps its bounds.
use spfs.Base.{ℕ, ◌+◌, ◌*◌, ◌%◌, ◌^◌, ◌≤◌, ◌<◌, ◌≡◌, refl, ap, ◌∙◌, ◌⊎◌, Res, ok, err, bug}
use spfs.Wire.{
  Bytes, Buffer, Refused, with_room, refused, load16, load32, load64, store16, store32, store64,
  read_u16, read_u32, read_u64, read_ino, read_sector, write_u16, write_u32, write_u64, write_ino,
  write_sector,
}
use spfs.Wire.Laws.{
  store16_ne, store32_ne, store64_ne, load16-store16, load32-store32, load64-store64, with_room-ok,
  with_room-refused, with_room-bug,
}

abbrev pub Reader : Type 0
Reader = Buffer → ℕ → Res Refused (ℕ × ℕ)

abbrev pub Writer : Type 0
Writer = Buffer → ℕ → ℕ → Res Refused (Buffer × ℕ)

-- `read` and `write` are the two sides of a field of `bytes` bytes that want `need` bytes of room.
pub record IsField (read : Reader) (write : Writer) (need bytes : ℕ) : Type 0 where
  -- a position behind the end of the block is a BUG_ON
  pub read_bug : (bh : Buffer) (pos : ℕ) → bh.b_size < pos → read bh pos ≡ bug
  pub write_bug : (bh : Buffer) (pos val : ℕ) → bh.b_size < pos → write bh pos val ≡ bug
  -- too little room is refused
  pub read_refused :
      (bh : Buffer) (pos : ℕ) → pos ≤ bh.b_size → bh.b_size < pos + need → read bh pos ≡ err refused
  pub write_refused :
      (bh : Buffer) (pos val : ℕ)
      → pos ≤ bh.b_size
      → bh.b_size < pos + need
      → write bh pos val ≡ err refused
  -- with room the write succeeds, and a read at the same place finds the value, cut to the field
  pub written : Buffer → ℕ → ℕ → Buffer
  pub write_ok :
      (bh : Buffer) (pos val : ℕ)
      → pos + need ≤ bh.b_size
      → write bh pos val ≡ ok (written bh pos val, pos + bytes)
  pub read_written :
      (bh : Buffer) (pos val : ℕ)
      → pos + need ≤ bh.b_size
      → read (written bh pos val) pos ≡ ok (val % 2 ^ (8 * bytes), pos + bytes)
  -- the block keeps its size and every byte outside the field
  pub same_size : (bh : Buffer) (pos val : ℕ) → (written bh pos val).b_size ≡ bh.b_size
  pub same_outside :
      (bh : Buffer) (pos val q : ℕ)
      → (q < pos) ⊎ (pos + bytes ≤ q)
      → (written bh pos val).b_data q ≡ bh.b_data q

-- All five are one pattern over the bytes that are loaded and stored.
module _ (load : Bytes → ℕ → ℕ) (store : Bytes → ℕ → ℕ → Bytes) (need bytes : ℕ) where
  abbrev read_pattern : Reader
  read_pattern bh pos = with_room bh pos need (load bh.b_data pos, pos + bytes)

  abbrev stored : Buffer → ℕ → ℕ → Buffer
  stored bh pos val = record bh { b_data = store bh.b_data pos val }

  abbrev write_pattern : Writer
  write_pattern bh pos val = with_room bh pos need (stored bh pos val, pos + bytes)

  pattern-IsField :
      ((m : Bytes) (p v : ℕ) → load (store m p v) p ≡ v % 2 ^ (8 * bytes))
      → ((m : Bytes) (p v q : ℕ) → (q < p) ⊎ (p + bytes ≤ q) → store m p v q ≡ m q)
      → IsField read_pattern write_pattern need bytes
  pattern-IsField load-store store_ne = record {
    read_bug = λ bh pos h. with_room-bug bh pos need _ h;
    write_bug = λ bh pos val h. with_room-bug bh pos need _ h;
    read_refused = λ bh pos h k. with_room-refused bh pos need _ h k;
    write_refused = λ bh pos val h k. with_room-refused bh pos need _ h k;
    written = stored;
    write_ok = λ bh pos val h. with_room-ok bh pos need _ h;
    read_written = λ bh pos val h.
        with_room-ok (stored bh pos val) pos need _ h
        ∙ ap (λ (v : ℕ). ok (v, pos + bytes)) (load-store bh.b_data pos val);
    same_size = λ bh pos val. refl;
    same_outside = λ bh pos val. store_ne bh.b_data pos val;
  }

-- Each integer field of util.c is BUG_ON behind the block, is refused without its room, and with
-- room is read back as it was written, cut to its width, with every other byte unchanged. A
-- sector or an inode number takes 4 bytes and wants 8.
pub fields-IsField :
    IsField read_u16 write_u16 2 2
    × IsField read_u32 write_u32 4 4
    × IsField read_u64 write_u64 8 8
    × IsField read_ino write_ino 8 4
    × IsField read_sector write_sector 8 4
unfolding read_u16 write_u16 read_u32 write_u32 read_u64 write_u64 read_ino write_ino read_sector
    write_sector
fields-IsField = (
  pattern-IsField load16 store16 2 2 load16-store16 store16_ne,
  pattern-IsField load32 store32 4 4 load32-store32 store32_ne,
  pattern-IsField load64 store64 8 8 load64-store64 store64_ne,
  pattern-IsField load32 store32 8 4 load32-store32 store32_ne,
  pattern-IsField load32 store32 8 4 load32-store32 store32_ne,
)
