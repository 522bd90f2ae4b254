-- ===== src/Insert/State.antt =====
-- btree.c: the tree with its device, and what an insertion hands from one node to the next.
use spfs.Base.{ℕ, Bool, not, ◌==◌, Option}
use spfs.Wire.{Bytes, Buffer, load64}
use spfs.Device.{Device}
use spfs.FreeList.{FreeList}
use spfs.Inode.{Failure}
use spfs.Bnode.{store_be}

-- `struct btree_bubble`: the memory of its entry, and the child behind it.
pub record Bubble : Type 0 where
  pub entry : Bytes
  pub greater : ℕ

abbrev pub clear_bubble : Bubble
clear_bubble = record { entry = λ _. 0; greater = 0 }

-- `entry.id != 0`, over all eight bytes of the field.
unfoldable pub bubble_is_active : Bubble → Bool
bubble_is_active bubble = not (load64 bubble.entry 0 == 0)

unfoldable pub bubble_make : (id page gt : ℕ) → Bubble
bubble_make id page gt = record { entry = store_be (store_be (λ _. 0) 0 id) 8 page; greater = gt }

-- `struct spfs_btree` with the device and the free list that it points to. `blocks` is 1.
pub record Tree : Type 0 where
  pub dev : Device
  pub free : FreeList
  pub start : ℕ

abbrev pub blocks : ℕ
blocks = 1

abbrev pub block : Device → ℕ → Buffer
block dev n = record { b_size = dev.block_size; b_data = dev.blocks n }

-- What a call leaves: `none` is the return of 0, and `some e` that of the code `e`.
pub record Left : Type 0 where
  pub res : Option Failure
  pub tree : Tree
  pub bubble : Bubble
  pub out : ℕ
