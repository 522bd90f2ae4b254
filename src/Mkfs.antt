-- ===== src/Mkfs.antt =====
-- mkfs.spfs.c: the program that writes the super block and the first free-list block of a device.
pub mod Image
pub mod Mount
use spfs.Base.{
  ℕ, zero, suc, ◌+◌, ◌-◌, ◌*◌, ◌/◌, ◌%◌, ◌^◌, Bool, not, ltb, ◌==◌, if◌then◌else◌, Option, none,
  some, Res, ok, err, bug, out_of_fuel, ◌>>=◌, bug_on, return_if,
}
use spfs.Base.Int.{ℤ, pos, negsuc, is_pos}
use spfs.Wire.{Bytes, store32, copy}
use spfs.Super.{super_magic}
use spfs.FreeList.{fl_magic}

-- An open file: its position and its bytes.
pub record File : Type 0 where
  pub offset : ℕ
  pub content : Bytes

-- What `fstat` gives.
pub record Stat : Type 0 where
  pub st_blksize : ℕ
  pub st_size : ℤ

-- `struct spfs_super_block_wire`.
pub record SuperWire : Type 0 where
  pub magic : ℕ
  pub version : ℕ
  pub block_size : ℕ
  pub dummy : ℕ
  pub id : ℕ
  pub root_id : ℕ
  pub btree_offset : ℕ
  pub free_list_offset : ℕ
  pub blocks : ℕ

-- `struct spfs_free_list` and `struct spfs_free_entry` of mkfs.spfs.h.
pub record FreeHeader : Type 0 where
  pub magic : ℕ
  pub entries : ℕ
  pub next : ℕ

pub record FreeEntry : Type 0 where
  pub start : ℕ
  pub blocks : ℕ

unfoldable pub bytes_of : Stat → ℕ → ℕ
bytes_of s blocks = s.st_blksize * blocks % 2 ^ 64

-- The size of the file after its header, as a number of blocks. `none` is the failure of `fstat`.
unfoldable pub set_blocks : Stat → ℕ → SuperWire → Res ℤ SuperWire
unfolding bytes_of
set_blocks s sz super = return_if (ltb sz (bytes_of s 2)) (pos 1) (
    bug_on (super.block_size == 0) (
      return_if ((sz - bytes_of s 2) / super.block_size == 0) (pos 1)
        (ok (record super { blocks = (sz - bytes_of s 2) / super.block_size }))))

unfoldable pub sized : Stat → ℤ → SuperWire → Res ℤ SuperWire
unfolding set_blocks
sized s (negsuc n) super = err (pos 1)
sized s (pos sz) super = set_blocks s sz super

unfoldable pub block_size : Option Stat → SuperWire → Res ℤ SuperWire
unfolding sized
block_size none super = err (negsuc 0)
block_size (some s) super = sized s s.st_size (record super { block_size = s.st_blksize % 2 ^ 32 })

unfoldable pub write_u32 : Bytes × ℕ → ℕ → Bytes × ℕ
write_u32 (buffer, at) value = (store32 buffer at value, at + 4)

unfoldable pub write_free_list_header : Bytes × ℕ → FreeHeader → Bytes × ℕ
unfolding write_u32
write_free_list_header b header =
    write_u32 (write_u32 (write_u32 b header.magic) header.entries) header.next

unfoldable pub write_free_entry : Bytes × ℕ → FreeEntry → Bytes × ℕ
unfolding write_u32
write_free_entry b entry = write_u32 (write_u32 b entry.start) entry.blocks

-- The buffer of `super_block`, whose bytes at first are those of the stack, with its seven fields.
unfoldable pub super_fields : Bytes → SuperWire → Bytes × ℕ
unfolding write_u32
super_fields stack super =
    let b =
      write_u32 (write_u32 (write_u32 (stack, 0) super.magic) super.version) super.block_size in
    let b = write_u32 (write_u32 b super.id) super.root_id in
    write_u32 (write_u32 b super.btree_offset) super.free_list_offset

-- The buffer of `free_list`: a header, and one entry for all blocks behind the first two.
unfoldable pub free_list_fields : SuperWire → Bytes × ℕ
unfolding write_free_list_header write_free_entry
free_list_fields super =
    write_free_entry
      (write_free_list_header ((λ _. 0), 0) (record { magic = fl_magic; entries = 1; next = 0 }))
      (record { start = 2; blocks = super.blocks % 2 ^ 32 })

-- The `super` of `main`.
unfoldable pub initial_super : SuperWire
initial_super = record {
  magic = super_magic;
  version = 1;
  block_size = 0;
  dummy = 0;
  id = 1;
  root_id = 1;
  btree_offset = 0;
  free_list_offset = 1;
  blocks = 0;
}

-- Any failure of a step makes `main` return 1, with the file as it is then.
abbrev failed : {A : Type 0} → File → Res ℤ A → Res (ℕ × File) A
failed file (ok a) = ok a
failed file (err e) = err (1, file)
failed file bug = bug
failed file out_of_fuel = out_of_fuel

-- `accepts file len` is what `write` does with `len` bytes: `none` for its -1, or how many it took.
module _ (accepts : File → ℕ → Option ℕ) where
  -- `write`: the bytes that are taken go to the position, which moves behind them.
  abbrev pub wrote : File → Bytes → Option ℕ → ℤ × File
  wrote file src none = (negsuc 0, file)
  wrote file src (some n) =
      (pos n, record { offset = file.offset + n; content = copy file.content file.offset src n })

  abbrev pub write : File → Bytes → ℕ → ℤ × File
  write file src len = wrote file src (accepts file len)

  unfoldable pub zero_fill : File → ℕ → ℤ × File
  zero_fill file zero = (pos 0, file)
  zero_fill file (suc bytes) =
      let (ret, file') = write file (λ _. 0) 1 in
      let rest = zero_fill file' bytes in if not (is_pos ret 1) then (ret, file') else rest

  -- A short write is reported by what `write` returned.
  unfoldable pub super_block : Bytes → File → SuperWire → ℤ × File
  unfolding super_fields zero_fill
  super_block stack file super =
      let (buffer, len) = super_fields stack super in
      let (ret, file') = write file buffer len in
      if not (is_pos ret len)
      then (ret, file')
      else zero_fill file' ((super.block_size + 2 ^ 64 - len) % 2 ^ 64)

  -- `tells file` says whether `lseek(fd, 0, SEEK_CUR)` succeeds; it gives the position.
  module _ (tells : File → Bool) where
    unfoldable pub free_list : File → SuperWire → ℤ × File
    unfolding free_list_fields
    free_list file super =
        let (buffer, len) = free_list_fields super in
        let (ret, file') = write file buffer len in
        if not (tells file)
        then (pos 1, file)
        else if not (file.offset == super.block_size)
        then (pos 1, file)
        else if not (is_pos ret len)
        then (pos 1, file')
        else (pos 0, file')

    -- `main` with a device: what the program returns, and the file. `stat` is what `fstat` gives.
    unfoldable pub run : Bytes → Option Stat → File → Res (ℕ × File) File
    unfolding block_size super_block free_list initial_super
    run stack stat file = do
      super ← failed file (block_size stat initial_super)
      let (ret, file') = super_block stack file super
      return_if (not (is_pos ret 0)) (1, file')
          (let (ret, file'') = free_list file' super in
            return_if (not (is_pos ret 0)) (1, file'') (ok file''))
