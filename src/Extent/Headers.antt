-- ===== src/Extent/Headers.antt =====
-- The header of an extent, written and read.
use spfs.Base.{ℕ, ◌%◌, ◌^◌, ◌≤◌, ◌≡◌, refl, arith, none, ok}
use spfs.Wire.{Bytes, Buffer, load32, store32, or_stop}
use spfs.Wire.Laws.{read_u32-ok, read_sector-ok, write_u32-ok}
use spfs.Extent.{Header, file_magic, parse_file_extent, make_file_extent}

-- The block with a header at its start.
unfoldable pub headed : Bytes → Header → Bytes
headed m header =
    store32 (store32 (store32 (store32 m 0 file_magic) 4 header.next) 8 header.capacity) 12
      header.length

-- The header that the bytes of a block stand for.
unfoldable pub header_at : Bytes → Header
header_at m = record { next = load32 m 4; capacity = load32 m 8; length = load32 m 12 }

pub make_file_extent-headed :
    (bh : Buffer) (header : Header)
    → 16 ≤ bh.b_size
    → make_file_extent bh 0 header ≡ ok (none, record bh { b_data = headed bh.b_data header }, 16)
unfolding make_file_extent or_stop headed
make_file_extent-headed bh header h =
    rw
      (
        write_u32-ok bh 0 file_magic (omega arith),
        write_u32-ok (record bh { b_data = store32 bh.b_data 0 file_magic }) 4 header.next
            (omega arith),
        write_u32-ok (record bh { b_data = store32 (store32 bh.b_data 0 file_magic) 4 header.next })
            8 header.capacity (omega arith),
        write_u32-ok
            (record bh {
              b_data =
                  store32 (store32 (store32 bh.b_data 0 file_magic) 4 header.next) 8
                    header.capacity;
            })
            12 header.length (omega arith),
      )
      refl

pub parse_file_extent-header_at :
    (bh : Buffer)
    → 16 ≤ bh.b_size
    → load32 bh.b_data 0 ≡ file_magic
    → parse_file_extent bh 0 ≡ ok (header_at bh.b_data, 16)
unfolding parse_file_extent header_at
parse_file_extent-header_at bh h e =
    rw
      (
        read_u32-ok bh 0 (omega arith),
        read_sector-ok bh 4 (omega arith),
        read_u32-ok bh 8 (omega arith),
        read_u32-ok bh 12 (omega arith),
        e,
      )
      refl

pub headed_ne : (m : Bytes) (header : Header) (q : ℕ) → 16 ≤ q → headed m header q ≡ m q
unfolding headed store32
headed_ne m header q h = ground arith

pub headed-magic : (m : Bytes) (header : Header) → load32 (headed m header) 0 ≡ file_magic
unfolding headed load32 store32
headed-magic m header = omega arith

-- `out` is `header` with its numbers cut to 32 bits.
pub record IsCut (header out : Header) : Type 0 where
  pub next : out.next ≡ header.next % 2 ^ 32
  pub capacity : out.capacity ≡ header.capacity % 2 ^ 32
  pub length : out.length ≡ header.length % 2 ^ 32

pub headed-IsCut : (m : Bytes) (header : Header) → IsCut header (header_at (headed m header))
unfolding headed header_at load32 store32
headed-IsCut m header = record { next = omega arith; capacity = omega arith; length = omega arith }

-- In a block of at least 16 bytes the header of an extent can be written, and the block is read as
-- that header with its numbers cut to 32 bits. The bytes behind the header stay.
pub parse-make_file_extent :
    (bh : Buffer) (header : Header)
    → 16 ≤ bh.b_size
    → (bh' : Buffer) × (out : Header) × (make_file_extent bh 0 header ≡ ok (none, bh', 16))
      × (parse_file_extent bh' 0 ≡ ok (out, 16))
      × IsCut header out
      × (bh'.b_size ≡ bh.b_size)
      × ((q : ℕ) → 16 ≤ q → bh'.b_data q ≡ bh.b_data q)
parse-make_file_extent bh header h = (
  record bh { b_data = headed bh.b_data header },
  header_at (headed bh.b_data header),
  make_file_extent-headed bh header h,
  parse_file_extent-header_at (record bh { b_data = headed bh.b_data header }) h
      (headed-magic bh.b_data header),
  headed-IsCut bh.b_data header,
  refl,
  headed_ne bh.b_data header,
)
