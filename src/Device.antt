-- ===== src/Device.antt =====
-- What the driver reads and writes: the blocks of a device, as the buffer cache shows them.
-- `sb_bread` returns NULL exactly for the blocks that are not `readable`; what it shows is what
-- was last written through a buffer head of the same block. `block_size` is the `b_size` of each
-- buffer.
pub mod Laws
use spfs.Base.{ℕ, Bool, ◌==◌, if◌then◌else◌, Option, none, some}
use spfs.Wire.{Bytes, Buffer}

pub record Device : Type 0 where
  pub block_size : ℕ
  pub readable : ℕ → Bool
  pub blocks : ℕ → Bytes

unfoldable pub sb_bread : Device → ℕ → Option Buffer
sb_bread dev n =
    if dev.readable n
    then some (record { b_size = dev.block_size; b_data = dev.blocks n })
    else none

-- The block `n` after `bh->b_data` was written.
unfoldable pub put : Device → ℕ → Buffer → Device
put dev n bh = record dev { blocks = λ k. if k == n then bh.b_data else dev.blocks k }
