-- ===== src/Super/Laws.antt =====
-- `spfs_super_block_init` on a block that has room for the super block.
use spfs.Base.{ℕ, ◌≤◌, ◌≡◌, ◌↔◌, true, Bool-cases, inl, inr, arith, ok}
use spfs.Wire.{Buffer, load32}
use spfs.Wire.Laws.{read_u32-ok, read_ino-ok, read_sector-ok}
use spfs.Device.{Device, sb_bread}
use spfs.Super.{Super, super_magic, initial_block_size, read_super_block, super_block_init}

-- The super block that the bytes of a block stand for.
unfoldable pub decode : Buffer → Super
decode bh = record {
  magic = load32 bh.b_data 0;
  version = load32 bh.b_data 4;
  block_size = load32 bh.b_data 8;
  id = load32 bh.b_data 12;
  root_id = load32 bh.b_data 16;
  btree_offset = load32 bh.b_data 20;
  free_list_offset = load32 bh.b_data 24;
}

pub read_super_block-decode : (bh : Buffer) → 32 ≤ bh.b_size → read_super_block bh ≡ ok (decode bh)
unfolding read_super_block decode
read_super_block-decode bh h = rw (
  read_u32-ok bh 0 (omega arith),
  read_u32-ok bh 4 (omega arith),
  read_u32-ok bh 8 (omega arith),
  read_ino-ok bh 12 (omega arith),
  read_ino-ok bh 16 (omega arith),
  read_sector-ok bh 20 (omega arith),
  read_sector-ok bh 24 (omega arith),
)

-- On a device with blocks of at least 32 bytes the super block is accepted exactly when its block
-- can be read, has the magic number, and gives a block size of at least 512; what is accepted is
-- what the seven words of the block stand for.
pub super_block_init_iff :
    (dev : Device) (start : ℕ) (super : Super)
    → 32 ≤ dev.block_size
    → (super_block_init dev start ≡ ok super) ↔ (
        (dev.readable start ≡ true)
        × (super ≡ decode (record { b_size = dev.block_size; b_data = dev.blocks start }))
        × (super.magic ≡ super_magic)
        × (initial_block_size ≤ super.block_size))
unfolding super_block_init sb_bread
super_block_init_iff dev start super h =
    let bh : Buffer = record { b_size = dev.block_size; b_data = dev.blocks start } in
    elim (Bool-cases (dev.readable start)) [
      | inl yes_read ↦ rw (yes_read, read_super_block-decode bh h) (ground arith)
      | inr not_read ↦ rw not_read (ground arith)
    ]
