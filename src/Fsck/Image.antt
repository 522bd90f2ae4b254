-- ===== src/Fsck/Image.antt =====
-- `fsck.spfs` on a device that `mkfs.spfs` has written.
use spfs.Base.{
  ℕ, suc, ◌+◌, ◌-◌, ◌*◌, ◌/◌, ◌%◌, ◌^◌, ◌≤◌, ◌<◌, ◌≡◌, refl, Bool, true, arith, Option, some, [],
  ◌∷◌, ok, ◌∙◌, ap,
}
use spfs.Base.Int.{pos}
use spfs.Wire.{Bytes, load32}
use spfs.FreeList.{fl_magic}
use spfs.Super.{super_magic}
use spfs.Mkfs.{File, SuperWire, super_fields, free_list_fields, initial_super, run as mkfs}
use spfs.Mkfs.Image.{
  sized_super, super_fields-load32, free_list_fields-load32, image, run-image, image-super,
  image-free,
}
use spfs.Fsck.{
  run as fsck, read_u32, read_super_block, check_super_block, read_free_list_header, read_entries,
  check_free_list,
}

module _ (reads : File → ℕ → Option ℕ) (whole : (file : File) → reads file 4 ≡ some 4)
    (seeks : File → ℕ → Bool) (sought : (file : File) (at : ℕ) → seeks file at ≡ true)
    (file : File) where
  read_u32-ok :
      (at : ℕ)
      → read_u32 reads seeks (record file { offset = at })
        ≡ ok (load32 file.content at, record file { offset = at + 4 })
  unfolding read_u32
  read_u32-ok at = rw (whole (record file { offset = at }), read_u32)

  -- The seven words at the start of the file, in the order of the super block.
  read_super_block-ok :
      (super : SuperWire)
      → read_super_block reads seeks file super
        ≡ ok (
          record super {
            magic = load32 file.content 0;
            version = load32 file.content 4;
            block_size = load32 file.content 8;
            id = load32 file.content 12;
            root_id = load32 file.content 16;
            btree_offset = load32 file.content 20;
            free_list_offset = load32 file.content 24;
          },
          record file { offset = 28 },
        )
  unfolding read_super_block
  read_super_block-ok super = rw (
    sought file 0,
    read_u32-ok 0,
    read_u32-ok 4,
    read_u32-ok 8,
    read_u32-ok 12,
    read_u32-ok 16,
    read_u32-ok 20,
    read_u32-ok 24,
  )

  read_free_list_header-ok :
      (at : ℕ)
      → read_free_list_header reads seeks (record file { offset = at })
        ≡ ok (
          record {
            magic = load32 file.content at;
            entries = load32 file.content (at + 4);
            next = load32 file.content (at + 4 + 4);
          },
          record file { offset = at + 4 + 4 + 4 },
        )
  unfolding read_free_list_header
  read_free_list_header-ok at = rw (read_u32-ok at, read_u32-ok (at + 4), read_u32-ok (at + 4 + 4))

  read_entries-one :
      (at : ℕ)
      → read_entries reads seeks 1 (record file { offset = at })
        ≡ ok (
          record { start = load32 file.content at; blocks = load32 file.content (at + 4) } ∷ [],
          record file { offset = at + 4 + 4 },
        )
  unfolding read_entries
  read_entries-one at = rw (read_u32-ok at, read_u32-ok (at + 4))

  -- A free-list block with one entry and no next block.
  check_free_list-one :
      (fuel : ℕ) (super : SuperWire) (free_list at : ℕ)
      → free_list * super.block_size % 2 ^ 32 ≡ at
      → load32 file.content at ≡ fl_magic
      → load32 file.content (at + 4) ≡ 1
      → load32 file.content (at + 4 + 4) ≡ 0
      → check_free_list reads seeks (suc fuel) file super free_list
        ≡ ok (
          (record {
            start = load32 file.content (at + 4 + 4 + 4);
            blocks = load32 file.content (at + 4 + 4 + 4 + 4);
          }
                ∷ [])
              ∷ [],
          record file { offset = at + 4 + 4 + 4 + 4 + 4 },
        )
  unfolding check_free_list
  check_free_list-one fuel super free_list at e m n z =
      rw
        (e, sought file at, read_free_list_header-ok at, m, n, z, read_entries-one (at + 4 + 4 + 4))

-- The super block of a new file system, in the fields that are on the disk.
abbrev pub fresh_super : ℕ → SuperWire → SuperWire
fresh_super bs rest = record rest {
  magic = super_magic;
  version = 1;
  block_size = bs;
  id = 1;
  root_id = 1;
  btree_offset = 0;
  free_list_offset = 1;
}

check-ok :
    (bs : ℕ) {super : SuperWire}
    → bs % 512 ≡ 0
    → 512 ≤ bs
    → super.magic ≡ super_magic
    → super.block_size ≡ bs
    → check_super_block super ≡ ok super
unfolding check_super_block
check-ok bs divides wide m e = ground arith

module _ (accepts : File → ℕ → Option ℕ) (full : (file : File) (n : ℕ) → accepts file n ≡ some n)
    (tells : File → Bool) (told : (file : File) → tells file ≡ true) (stack : Bytes) (file : File)
    (start : file.offset ≡ 0) (bs sz : ℕ) (wide : 512 ≤ bs) (narrow : bs < 2 ^ 32)
    (large : bs * 3 ≤ sz) where
  abbrev made : File
  made = image accepts full tells told stack file start bs sz wide narrow large

  word :
      (at k : ℕ)
      → k + 4 ≤ 20
      → at ≡ bs + k
      → load32 made.content at ≡ load32 (free_list_fields (sized_super bs sz)).0 k
  word at k h e =
      ap (load32 made.content) e
      ∙ image-free accepts full tells told stack file start bs sz wide narrow large k h

  super_word :
      (k : ℕ)
      → k + 4 ≤ 28
      → load32 made.content k ≡ load32 (super_fields stack (sized_super bs sz)).0 k
  super_word k h = image-super accepts full tells told stack file start bs sz wide narrow large k h

  super_words :
      (load32 made.content 0 ≡ super_magic)
      × (load32 made.content 4 ≡ 1)
      × (load32 made.content 8 ≡ bs)
      × (load32 made.content 12 ≡ 1)
      × (load32 made.content 16 ≡ 1)
      × (load32 made.content 20 ≡ 0)
      × (load32 made.content 24 ≡ 1)
  unfolding initial_super
  super_words = ground (
    arith,
    super_word 0,
    super_word 4,
    super_word 8,
    super_word 12,
    super_word 16,
    super_word 20,
    super_word 24,
    super_fields-load32 stack (sized_super bs sz),
  )

  list_words :
      (load32 made.content bs ≡ fl_magic)
      × (load32 made.content (bs + 4) ≡ 1)
      × (load32 made.content (bs + 4 + 4) ≡ 0)
      × (load32 made.content (bs + 4 + 4 + 4) ≡ 2)
      × (load32 made.content (bs + 4 + 4 + 4 + 4) ≡ (sz - bs * 2) / bs % 2 ^ 32)
  list_words = ground (
    arith,
    word bs 0,
    word (bs + 4) 4,
    word (bs + 4 + 4) 8,
    word (bs + 4 + 4 + 4) 12,
    word (bs + 4 + 4 + 4 + 4) 16,
    free_list_fields-load32 (sized_super bs sz),
  )

  -- On a device whose reads, writes and seeks all succeed, `fsck.spfs` accepts what `mkfs.spfs`
  -- has written if 512 divides the block size, from 512 up to 32 bits, and there is room for the
  -- header and a block. It prints the super block and one free extent, of all blocks from the
  -- third on. `rest` is what the `super` of its `main` holds before, in the two fields that are
  -- not on the disk.
  pub fsck-mkfs :
      (reads : File → ℕ → Option ℕ)
      → ((file : File) → reads file 4 ≡ some 4)
      → (seeks : File → ℕ → Bool) → ((file : File) (at : ℕ) → seeks file at ≡ true)
      → (fuel : ℕ) (rest : SuperWire) → bs % 512 ≡ 0
      → (mkfs accepts tells stack (some (record { st_blksize = bs; st_size = pos sz })) file
          ≡ ok made)
        × (fsck reads seeks (suc fuel) made rest
            ≡ ok (
              fresh_super bs rest,
              (record { start = 2; blocks = (sz - bs * 2) / bs % 2 ^ 32 } ∷ []) ∷ [],
            ))
  unfolding fsck check_super_block initial_super
  fsck-mkfs reads whole seeks sought fuel rest divides = (
    run-image accepts full tells told stack file start bs sz wide narrow large,
    rw (
      read_super_block-ok reads whole seeks sought made rest,
      super_words.0,
      super_words.1,
      super_words.2,
      super_words.3,
      super_words.4,
      super_words.5,
      super_words.6,
      check-ok bs {super = fresh_super bs rest} divides wide refl refl,
      check_free_list-one reads whole seeks sought (record made { offset = 28 }) fuel
          (fresh_super bs rest) 1 bs (omega arith) list_words.0 list_words.1 list_words.2,
      list_words.3,
      list_words.4,
    ),
  )
