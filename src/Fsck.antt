-- ===== src/Fsck.antt =====
-- fsck.spfs.c: the program that reads the super block and the free list of a device and tests them.

pub mod Image
use spfs.Base.{
  ℕ, zero, suc, ◌+◌, ◌*◌, ◌%◌, ◌^◌, Bool, not, ltb, ◌==◌, if◌then◌else◌, Option, none, some, List,
  [], ◌∷◌, Res, ok, err, bug, out_of_fuel, ◌>>=◌, return_if,
}
use spfs.Wire.{load32}
use spfs.Super.{super_magic, initial_block_size}
use spfs.FreeList.{fl_magic}
use spfs.Mkfs.{File, SuperWire, FreeHeader, FreeEntry}

-- Each function of this file reports a failure by a code that is not 0.
pub data Failure : Type 0 where
  failed : Failure

-- A block size below 512, or that 512 does not divide, is refused, and so is another magic number.
unfoldable pub check_super_block : SuperWire → Res Failure SuperWire
check_super_block super = return_if (not (super.magic == super_magic)) failed (
    return_if (ltb super.block_size initial_block_size) failed
      (return_if (not (super.block_size % initial_block_size == 0)) failed (ok super)))

-- `reads file len` is what `read` does when asked for `len` bytes: `none` for its -1, or how many
-- it gave. `seeks file at` says whether `lseek(fd, at, SEEK_SET)` succeeds.
module _ (reads : File → ℕ → Option ℕ) (seeks : File → ℕ → Bool) where
  -- `fsck_read_u32` returns 0 only for four bytes: any other number of them is a failure.
  unfoldable pub read_u32 : File → Res Failure (ℕ × File)
  read_u32 file = elim (reads file 4) [
    | none ↦ err failed
    | some n ↦
        if n == 4
        then ok (load32 file.content file.offset, record file { offset = file.offset + 4 })
        else err failed
  ]

  abbrev seek : File → ℕ → Res Failure File
  seek file at = return_if (not (seeks file at)) failed (ok (record file { offset = at }))

  -- `dummy` and `blocks` are not on the disk: they stay as the `super` of `main` has them.
  unfoldable pub read_super_block : File → SuperWire → Res Failure (SuperWire × File)
  unfolding read_u32
  read_super_block file super = do
    file ← seek file 0
    (magic, file) ← read_u32 file
    (version, file) ← read_u32 file
    (block_size, file) ← read_u32 file
    (id, file) ← read_u32 file
    (root_id, file) ← read_u32 file
    (btree_offset, file) ← read_u32 file
    (free_list_offset, file) ← read_u32 file
    ok (
      record super {
        magic = magic;
        version = version;
        block_size = block_size;
        id = id;
        root_id = root_id;
        btree_offset = btree_offset;
        free_list_offset = free_list_offset;
      },
      file,
    )

  unfoldable pub read_free_list_header : File → Res Failure (FreeHeader × File)
  unfolding read_u32
  read_free_list_header file = do
    (magic, file) ← read_u32 file
    (entries, file) ← read_u32 file
    (next, file) ← read_u32 file
    ok (record { magic = magic; entries = entries; next = next }, file)

  unfoldable pub read_free_entry : File → Res Failure (FreeEntry × File)
  unfolding read_u32
  read_free_entry file = do
    (start, file) ← read_u32 file
    (blocks, file) ← read_u32 file
    ok (record { start = start; blocks = blocks }, file)

  -- The `for` loop over the entries, with those that are printed.
  unfoldable pub read_entries : ℕ → File → Res Failure (List FreeEntry × File)
  unfolding read_free_entry
  read_entries zero file = ok ([], file)
  read_entries (suc left) file = do
    (entry, file) ← read_free_entry file
    (rest, file) ← read_entries left file
    ok (entry ∷ rest, file)

  -- The `do` loop on fuel: the entries of each block of the chain, as they are printed. The offset
  -- of a block is a product of two `uint32_t`.
  unfoldable pub check_free_list :
      ℕ → File → SuperWire → ℕ → Res Failure (List (List FreeEntry) × File)
  unfolding read_free_list_header read_entries
  check_free_list zero file super free_list = out_of_fuel
  check_free_list (suc fuel) file super free_list = do
    file ← seek file (free_list * super.block_size % 2 ^ 32)
    (header, file) ← read_free_list_header file
    return_if (not (header.magic == fl_magic)) failed (do
      (entries, file) ← read_entries header.entries file
      let rest = check_free_list fuel file super header.next
      if header.next == 0
          then ok (entries ∷ [], file)
          else (do (more, file) ← rest; ok (entries ∷ more, file)))

  -- `main` with a device: the super block and the free list that it prints, or a failure.
  unfoldable pub run : ℕ → File → SuperWire → Res Failure (SuperWire × List (List FreeEntry))
  unfolding read_super_block check_super_block check_free_list
  run fuel file stack = do
    (super, file) ← read_super_block file stack
    super ← check_super_block super
    (lists, file) ← check_free_list fuel file super super.free_list_offset
    ok (super, lists)
