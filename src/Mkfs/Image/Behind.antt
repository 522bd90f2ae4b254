-- ===== src/Mkfs/Image/Behind.antt =====
-- What `mkfs.spfs` leaves of a device behind its first two blocks.
use spfs.Base.{
  ℕ, zero, suc, ◌+◌, ◌*◌, ◌^◌, ◌≤◌, ◌<◌, ◌≡◌, refl, true, Bool, arith, Option, some, inr, ◌∙◌,
}
use spfs.Wire.{Bytes}
use spfs.Wire.Laws.{copy_ne}
use spfs.Mkfs.{File, SuperWire, super_fields, free_list_fields, zero_fill, super_block}
use spfs.Mkfs.Image.{wrote_all, sized_super, before_list, before_list-offset, image}

module _ (accepts : File → ℕ → Option ℕ)
    (full : (file : File) (n : ℕ) → accepts file n ≡ some n) where
  zero_fill-behind :
      (file : File) (n q : ℕ)
      → file.offset + n ≤ q
      → (zero_fill accepts file n).1.content q ≡ file.content q
  unfolding zero_fill
  zero_fill-behind file zero q h = refl
  zero_fill-behind file (suc n) q h = rw (full file 1) (
      zero_fill-behind (wrote_all file (λ _. 0) 1) n q (omega arith)
      ∙ copy_ne file.content file.offset (λ _. 0) 1 q (inr (omega arith)))

  module _ (tells : File → Bool) (told : (file : File) → tells file ≡ true) (stack : Bytes)
      (file : File) (start : file.offset ≡ 0) (bs sz : ℕ) (wide : 512 ≤ bs) (narrow : bs < 2 ^ 32)
      (large : bs * 3 ≤ sz) where
    super_block-behind :
        (super : SuperWire) (q : ℕ)
        → super.block_size ≡ bs
        → bs ≤ q
        → (super_block accepts stack file super).1.content q ≡ file.content q
    unfolding super_block
    super_block-behind super q same h = rw (full file 28) (
        zero_fill-behind (wrote_all file (super_fields stack super).0 28) _ q (omega arith)
        ∙ copy_ne file.content file.offset (super_fields stack super).0 28 q (inr (omega arith)))

    -- Everything behind the first two blocks is as it was.
    pub image-behind :
        (q : ℕ)
        → bs * 2 ≤ q
        → (image accepts full tells told stack file start bs sz wide narrow large).content q
          ≡ file.content q
    unfolding image
    image-behind q h =
        let before : File =
          before_list accepts full tells told stack file start bs sz wide narrow large in
        copy_ne before.content before.offset (free_list_fields (sized_super bs sz)).0 20 q (
          inr (
            omega (
              arith,
              before_list-offset accepts full tells told stack file start bs sz wide narrow large,
            )))
        ∙ super_block-behind (sized_super bs sz) q refl (omega arith)
