-- ===== src/Examples/Lists.antt =====
-- The allocator and the free list of a device.
use spfs.Base.{
  ℕ, ◌+◌, ◌≤◌, ◌<◌, ◌≡◌, ◌↔◌, ◌⊎◌, refl, true, arith, if◌then◌else◌, ◌==◌, List, [], ◌∷◌, ◌++◌,
  reverse, some, ok, out_of_fuel, ◌%◌, ◌^◌,
}
use spfs.Wire.{Bytes, Buffer, store32, load32}
use spfs.Device.{Device, sb_bread}
use spfs.FreeList.{Node, FreeList, take_from, free_alloc, free_dealloc, free_init, fl_magic}
use spfs.FreeList.Sum.{total, holds}
use spfs.FreeList.FirstFit.{FirstFit, left, grant, free_alloc-FirstFit}
use spfs.FreeList.Alloc.{IsValid, AllSmaller, serve, granted_times, serve-holds}
use spfs.FreeList.Init.{Chain, stop, block, IsBlock, entries_at, free_init-Chain, free_init_cycle}

abbrev node : ℕ → ℕ → Node
node start blocks = record { start = start; blocks = blocks }

abbrev two_extents : FreeList
two_extents = record { blocks = 12; root = node 2 4 ∷ node 10 8 ∷ [] }

two_extents-IsValid : IsValid two_extents
unfolding total
two_extents-IsValid = record { counted = refl; positive = omega arith }

-- The end of the second extent is handed out.
alloc_run : free_alloc two_extents 5 ≡ (record { blocks = 7; root = node 2 4 ∷ node 10 3 ∷ [] }, 13)
unfolding free_alloc
alloc_run = refl

free_alloc-FirstFit_example :
    (((12 ≤ 5) ⊎ AllSmaller two_extents.root 5) × (free_alloc two_extents 5 ≡ (two_extents, 0)))
    ⊎ ((fit : FirstFit two_extents.root 5) × (5 < 12)
        × (free_alloc two_extents 5 ≡ (record { blocks = 7; root = left fit }, grant fit)))
free_alloc-FirstFit_example = free_alloc-FirstFit two_extents 5

serve-holds_example :
    IsValid (serve two_extents (5 ∷ 3 ∷ [])).0
    × ((b : ℕ)
        → holds two_extents.root b
          ≡ holds (serve two_extents (5 ∷ 3 ∷ [])).0.root b
            + granted_times (serve two_extents (5 ∷ 3 ∷ [])).1 b)
serve-holds_example = serve-holds two_extents (5 ∷ 3 ∷ []) two_extents-IsValid

-- A free-list block with one entry, and the device that has it as block 1.
list_block : ℕ → Bytes
list_block next =
    store32 (store32 (store32 (store32 (store32 (λ _. 0) 0 fl_magic) 4 1) 8 next) 12 2) 16 7

disk : ℕ → Device
disk next = record { block_size = 64; readable = λ _. true; blocks = λ n. list_block next }

abbrev shown : ℕ → Buffer
shown next = record { b_size = 64; b_data = list_block next }

shown-IsBlock : (next : ℕ) → next < 2 ^ 32 → IsBlock (shown next) 1 next
unfolding list_block load32 store32
shown-IsBlock next h = omega arith

disk-Chain : Chain (disk 0) 1 (entries_at (list_block 0) 12 1 ++ []) 1
unfolding disk sb_bread
disk-Chain = block (shown 0) refl (shown-IsBlock 0 (omega arith)) stop

free_init-Chain_example :
    free_init (λ _. true) 2 (disk 0) 1
    ≡ ok (record {
      blocks = total (entries_at (list_block 0) 12 1 ++ []) % 2 ^ 32;
      root = reverse (entries_at (list_block 0) 12 1 ++ []);
    })
free_init-Chain_example = free_init-Chain (λ _. true) (λ _. refl) 2 disk-Chain (omega arith)

free_init_run :
    free_init (λ _. true) 2 (disk 0) 1 ≡ ok (record { blocks = 7; root = node 2 7 ∷ [] })
unfolding free_init disk list_block sb_bread store32 load32 spfs.FreeList.read_header
    spfs.FreeList.read_entry spfs.FreeList.push spfs.Wire.read_u32 spfs.Wire.read_sector
free_init_run = refl

disk-sb_bread : sb_bread (disk 1) 1 ≡ spfs.Base.some (shown 1)
unfolding disk sb_bread
disk-sb_bread = refl

free_init_cycle_example : free_init (λ _. true) 1000 (disk 1) 1 ≡ out_of_fuel
free_init_cycle_example =
    free_init_cycle (λ _. true) (λ _. refl) 1000 (disk 1) 0 (shown 1) disk-sb_bread
      (shown-IsBlock 1 (omega arith))
