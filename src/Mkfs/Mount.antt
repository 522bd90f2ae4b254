-- ===== src/Mkfs/Mount.antt =====
-- The driver on a device that `mkfs.spfs` has written: the super block and the free list that a
-- mount reads.
use spfs.Base.{
  ℕ, ◌+◌, ◌-◌, ◌*◌, ◌/◌, ◌%◌, ◌^◌, ◌≤◌, ◌<◌, ◌≡◌, refl, Bool, true, arith, Option, some, [], ◌∷◌,
  ◌++◌, sym, ok, ◌∙◌, ap,
}
use spfs.Base.Int.{pos}
use spfs.Wire.{Bytes, Buffer, load32}
use spfs.Wire.Laws.{load32_shift}
use spfs.Device.{sb_bread}
use spfs.FreeList.{FreeList, free_init}
use spfs.FreeList.Init.{entries_at, IsBlock, Chain, stop, block, free_init-Chain}
use spfs.FreeList.Sum.{total}
use spfs.Super.{Super, super_magic, super_block_init}
use spfs.Super.Laws.{decode, super_block_init_iff}
use spfs.Mkfs.{File, super_fields, free_list_fields, initial_super, run}
use spfs.Mkfs.Image.{
  sized_super, as_device, super_fields-load32, free_list_fields-load32, image, run-image,
  image-super, image-free,
}

-- What a fresh file system looks like to the driver.
abbrev pub fresh_super : ℕ → Super
fresh_super bs = record {
  magic = super_magic;
  version = 1;
  block_size = bs;
  id = 1;
  root_id = 1;
  btree_offset = 0;
  free_list_offset = 1;
}

abbrev pub fresh_free : ℕ → FreeList
fresh_free count = record { blocks = count; root = record { start = 2; blocks = count } ∷ [] }

module _ (accepts : File → ℕ → Option ℕ) (full : (file : File) (n : ℕ) → accepts file n ≡ some n)
    (tells : File → Bool) (told : (file : File) → tells file ≡ true) (stack : Bytes) (file : File)
    (start : file.offset ≡ 0) (bs sz : ℕ) (wide : 512 ≤ bs) (narrow : bs < 2 ^ 32)
    (large : bs * 3 ≤ sz) where
  abbrev made : File
  made = image accepts full tells told stack file start bs sz wide narrow large

  word :
      (k : ℕ)
      → k + 4 ≤ 28
      → load32 (λ q. made.content (0 * 512 + q)) k
        ≡ load32 (super_fields stack (sized_super bs sz)).0 k
  word k h =
      load32_shift made.content (0 * 512) k k (omega arith)
      ∙ image-super accepts full tells told stack file start bs sz wide narrow large k h

  decode-image :
      decode (record { b_size = 512; b_data = (as_device 512 made).blocks 0 }) ≡ fresh_super bs
  unfolding decode initial_super
  decode-image = ground (
    arith,
    word 0,
    word 4,
    word 8,
    word 12,
    word 16,
    word 20,
    word 24,
    super_fields-load32 stack (sized_super bs sz),
  )

  abbrev count : ℕ
  count = (sz - bs * 2) / bs % 2 ^ 32

  free_word :
      (k : ℕ)
      → k + 4 ≤ 20
      → load32 (λ q. made.content (1 * bs + q)) k
        ≡ load32 (free_list_fields (sized_super bs sz)).0 k
  free_word k h =
      load32_shift made.content (1 * bs) k (bs + k) (omega arith)
      ∙ image-free accepts full tells told stack file start bs sz wide narrow large k h

  abbrev list_block : Buffer
  list_block = record { b_size = bs; b_data = λ q. made.content (1 * bs + q) }

  list_block-IsBlock : IsBlock list_block 1 0
  list_block-IsBlock =
      ground
        (arith, free_word 0, free_word 4, free_word 8, free_list_fields-load32 (sized_super bs sz))

  list_block-entries : entries_at list_block.b_data 12 1 ≡ (fresh_free count).root
  unfolding entries_at
  list_block-entries =
      ground (arith, free_word 12, free_word 16, free_list_fields-load32 (sized_super bs sz))

  total-fresh : total ((fresh_free count).root ++ []) % 2 ^ 32 ≡ count
  unfolding total
  total-fresh = omega arith

  image-Chain : Chain (as_device bs made) 1 (entries_at list_block.b_data 12 1 ++ []) 1
  unfolding sb_bread
  image-Chain = block list_block refl list_block-IsBlock stop

  pub run-mounts :
      (kzalloc : FreeList → Bool)
      → ((list : FreeList) → kzalloc list ≡ true)
      → (fuel : ℕ) → 1 < fuel
      → (run accepts tells stack (some (record { st_blksize = bs; st_size = pos sz })) file
          ≡ ok made)
        × (super_block_init (as_device 512 made) 0 ≡ ok (fresh_super bs))
        × (free_init kzalloc fuel (as_device bs made) 1 ≡ ok (fresh_free count))
  run-mounts kzalloc succeeds fuel h = (
    run-image accepts full tells told stack file start bs sz wide narrow large,
    (super_block_init_iff (as_device 512 made) 0 (fresh_super bs) (omega arith)).1
        (refl, sym decode-image, refl, wide),
    free_init-Chain kzalloc succeeds fuel image-Chain h
        ∙ rw list_block-entries (
            ap (λ (n : ℕ). ok (record { blocks = n; root = (fresh_free count).root })) total-fresh),
  )
