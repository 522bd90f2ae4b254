-- ===== src/Mkfs/Image.antt =====
-- What `mkfs.spfs` leaves on a device, as the driver reads it.
pub mod Behind
use spfs.Base.{
  ℕ, zero, suc, ◌+◌, ◌-◌, ◌*◌, ◌/◌, ◌%◌, ◌^◌, ◌≤◌, ◌<◌, ◌≡◌, ◌≢◌, refl, ==_true, ==_false,
  ltb-false, inl, Bool, true, arith, Option, some, ok, ◌∙◌,
}
use spfs.Base.Int.{pos}
use spfs.Wire.{Bytes, load32, store32, copy}
use spfs.Wire.Laws.{load32-copy_ne, load32-copy_self}
use spfs.Device.{Device}
use spfs.FreeList.{fl_magic}
use spfs.Mkfs.{
  File, SuperWire, super_fields, free_list_fields, initial_super, zero_fill, super_block, free_list,
  block_size, run,
}

-- The fields of the super block, in their order on the disk.
pub super_fields-load32 :
    (stack : Bytes) (super : SuperWire)
    → (load32 (super_fields stack super).0 0 ≡ super.magic % 2 ^ 32)
      × (load32 (super_fields stack super).0 4 ≡ super.version % 2 ^ 32)
      × (load32 (super_fields stack super).0 8 ≡ super.block_size % 2 ^ 32)
      × (load32 (super_fields stack super).0 12 ≡ super.id % 2 ^ 32)
      × (load32 (super_fields stack super).0 16 ≡ super.root_id % 2 ^ 32)
      × (load32 (super_fields stack super).0 20 ≡ super.btree_offset % 2 ^ 32)
      × (load32 (super_fields stack super).0 24 ≡ super.free_list_offset % 2 ^ 32)
unfolding super_fields load32 store32
super_fields-load32 stack super = omega arith

-- The five words of the free-list block.
pub free_list_fields-load32 :
    (super : SuperWire)
    → (load32 (free_list_fields super).0 0 ≡ fl_magic)
      × (load32 (free_list_fields super).0 4 ≡ 1)
      × (load32 (free_list_fields super).0 8 ≡ 0)
      × (load32 (free_list_fields super).0 12 ≡ 2)
      × (load32 (free_list_fields super).0 16 ≡ super.blocks % 2 ^ 32)
unfolding free_list_fields load32 store32
free_list_fields-load32 super = omega arith

-- The file behind a write of `n` bytes.
abbrev wrote_all : File → Bytes → ℕ → File
wrote_all file src n = record {
  offset = file.offset + n;
  content = copy file.content file.offset src n;
}

module _ (accepts : File → ℕ → Option ℕ)
    (full : (file : File) (n : ℕ) → accepts file n ≡ some n) where
  -- Filling with zeros succeeds, moves the position, and changes nothing before it.
  zero_fill-ok : (file : File) (n : ℕ) → (zero_fill accepts file n).0 ≡ pos 0
  unfolding zero_fill
  zero_fill-ok file zero = refl
  zero_fill-ok file (suc n) = rw (full file 1) (zero_fill-ok (wrote_all file (λ _. 0) 1) n)

  zero_fill-offset : (file : File) (n : ℕ) → (zero_fill accepts file n).1.offset ≡ file.offset + n
  unfolding zero_fill
  zero_fill-offset file zero = omega arith
  zero_fill-offset file (suc n) =
      rw (full file 1) (zero_fill-offset (wrote_all file (λ _. 0) 1) n ∙ omega arith)

  zero_fill-content :
      (file : File) (n q : ℕ)
      → q + 4 ≤ file.offset
      → load32 (zero_fill accepts file n).1.content q ≡ load32 file.content q
  unfolding zero_fill
  zero_fill-content file zero q h = refl
  zero_fill-content file (suc n) q h = rw (full file 1) (
      zero_fill-content (wrote_all file (λ _. 0) 1) n q (omega arith)
      ∙ load32-copy_ne file.content file.offset _ 1 q (inl h))

  module _ (stack : Bytes) (file : File) (start : file.offset ≡ 0) (super : SuperWire)
      (fits : 28 ≤ super.block_size) (narrow : super.block_size < 2 ^ 32) where
    -- The super block is written at the start, and the file stands behind its block.
    super_block-ok :
        ((super_block accepts stack file super).0 ≡ pos 0)
        × ((super_block accepts stack file super).1.offset ≡ super.block_size)
    unfolding super_block
    super_block-ok = rw (full file 28) (
      zero_fill-ok _ _,
      zero_fill-offset (wrote_all file (super_fields stack super).0 28)
            ((super.block_size + 2 ^ 64 - 28) % 2 ^ 64)
          ∙ omega arith,
    )

    super_block-content :
        (k : ℕ)
        → k + 4 ≤ 28
        → load32 (super_block accepts stack file super).1.content k
          ≡ load32 (super_fields stack super).0 k
    unfolding super_block
    super_block-content k h = rw (full file 28) (
        zero_fill-content (wrote_all file (super_fields stack super).0 28) _ k (omega arith)
        ∙ load32-copy_self file.content file.offset _ 28 k k (omega arith) h)

  module _ (tells : File → Bool) (told : (file : File) → tells file ≡ true) (file : File)
      (super : SuperWire) (here : file.offset ≡ super.block_size) where
    -- The free-list block is written where the file stands.
    free_list-ok :
        free_list accepts tells file super ≡ (pos 0, wrote_all file (free_list_fields super).0 20)
    unfolding free_list
    free_list-ok = rw (told file, full file 20, ==_true file.offset super.block_size here)

-- The `super` of `main` once the block size and the number of blocks are set.
abbrev pub sized_super : ℕ → ℕ → SuperWire
sized_super bs sz = record initial_super { block_size = bs; blocks = (sz - bs * 2) / bs }

-- The size of a file that has room for the header and one block, in whole blocks.
block_size-ok :
    (bs sz : ℕ)
    → 0 < bs
    → bs < 2 ^ 32
    → bs * 3 ≤ sz
    → block_size (some (record { st_blksize = bs; st_size = pos sz })) initial_super
      ≡ ok (sized_super bs sz)
unfolding block_size
block_size-ok bs sz p h k =
    let narrow : bs % 2 ^ 32 ≡ bs = omega arith in
    let header : bs * 2 % 2 ^ 64 ≡ bs * 2 = omega arith in
    let some_blocks : (sz - bs * 2) / bs ≢ 0 = grind arith in
    rw (
      narrow,
      header,
      ltb-false sz (bs * 2) (omega arith),
      ==_false bs 0 (omega arith),
      ==_false ((sz - bs * 2) / bs) 0 some_blocks,
    )

-- The file as a device with blocks of `bs` bytes, each of them readable.
abbrev pub as_device : ℕ → File → Device
as_device bs file = record {
  block_size = bs;
  readable = λ _. true;
  blocks = λ n q. file.content (n * bs + q);
}

-- The result of `main`, and how the driver reads it.
module _ (accepts : File → ℕ → Option ℕ) (full : (file : File) (n : ℕ) → accepts file n ≡ some n)
    (tells : File → Bool) (told : (file : File) → tells file ≡ true) (stack : Bytes) (file : File)
    (start : file.offset ≡ 0) (bs sz : ℕ) (wide : 512 ≤ bs) (narrow : bs < 2 ^ 32)
    (large : bs * 3 ≤ sz) where
  abbrev before_list : File
  before_list = (super_block accepts stack file (sized_super bs sz)).1

  before_list-offset : before_list.offset ≡ bs
  before_list-offset =
      (super_block-ok accepts full stack file start (sized_super bs sz) (omega arith) narrow).1

  pub image : File
  image = wrote_all before_list (free_list_fields (sized_super bs sz)).0 20

  pub run-image :
      run accepts tells stack (some (record { st_blksize = bs; st_size = pos sz })) file ≡ ok image
  unfolding run image
  run-image = rw (
    block_size-ok bs sz (omega arith) narrow large,
    (super_block-ok accepts full stack file start (sized_super bs sz) (omega arith) narrow).0,
    free_list-ok accepts full tells told before_list (sized_super bs sz) before_list-offset,
  )

  pub image-super :
      (k : ℕ)
      → k + 4 ≤ 28
      → load32 image.content k ≡ load32 (super_fields stack (sized_super bs sz)).0 k
  unfolding image
  image-super k h =
      load32-copy_ne before_list.content before_list.offset _ 20 k
        (inl (omega (arith, before_list-offset)))
      ∙ super_block-content accepts full stack file start (sized_super bs sz) (omega arith) narrow k
          h

  pub image-free :
      (k : ℕ)
      → k + 4 ≤ 20
      → load32 image.content (bs + k) ≡ load32 (free_list_fields (sized_super bs sz)).0 k
  unfolding image
  image-free k h =
      load32-copy_self before_list.content before_list.offset _ 20 (bs + k) k
        (omega (arith, before_list-offset)) h
