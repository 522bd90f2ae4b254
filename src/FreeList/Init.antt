-- ===== src/FreeList/Init.antt =====
-- What `spfs_free_init` reads: the chain of free-list blocks, described by the bytes of the blocks.
use mathlib.Core.List.{reverse_aux}
use spfs.Base.{
  ℕ, zero, suc, ◌+◌, ◌*◌, ◌%◌, ◌^◌, ◌≤◌, ◌<◌, ◌≡◌, refl, Bool, true, arith, List, [], ◌∷◌, ◌++◌,
  reverse, some, ok, out_of_fuel, ◌∙◌,
}
use spfs.Wire.{Bytes, Buffer, load32}
use spfs.Wire.Laws.{read_u32-ok, read_sector-ok}
use spfs.Device.{Device, sb_bread}
use spfs.FreeList.{
  Node, FreeList, fl_magic, read_entry, read_header, push, init_free_list_entry, init_entries,
  init_chain, free_init,
}
use spfs.FreeList.Sum.{total}

-- The `n` entries of eight bytes from offset `pos` on.
unfoldable pub entries_at : Bytes → ℕ → ℕ → List Node
entries_at m pos zero = []
entries_at m pos (suc n) =
    record { start = load32 m pos; blocks = load32 m (pos + 4) } ∷ entries_at m (pos + 8) n

-- A free-list block with `length` entries, all inside the block, that points to the block `next`.
pub record IsBlock (bh : Buffer) (length next : ℕ) : Type 0 where
  pub magic : load32 bh.b_data 0 ≡ fl_magic
  pub has_length : load32 bh.b_data 4 ≡ length
  pub has_next : load32 bh.b_data 8 ≡ next
  pub room : 12 + 8 * length ≤ bh.b_size
  pub header_room : 16 ≤ bh.b_size

-- From block `head` the device has a chain of `blocks` free-list blocks that ends, and `nodes` are
-- their entries in order.
pub data Chain (dev : Device) : ℕ → List Node → ℕ → Type 0 where
  stop : Chain dev zero [] zero
  block :
      {head next length blocks : ℕ} {rest : List Node} (bh : Buffer)
      → sb_bread dev (suc head) ≡ some bh
      → IsBlock bh length next
      → Chain dev next rest blocks
      → Chain dev (suc head) (entries_at bh.b_data 12 length ++ rest) (suc blocks)

read_entry-ok :
    (bh : Buffer) (pos : ℕ)
    → pos + 8 ≤ bh.b_size
    → read_entry bh pos
      ≡ ok (record { start = load32 bh.b_data pos; blocks = load32 bh.b_data (pos + 4) }, pos + 8)
unfolding read_entry
read_entry-ok bh pos h =
    ground (arith, read_sector-ok bh pos h, read_u32-ok bh (pos + 4) (omega arith))

pub read_header-ok :
    (bh : Buffer) {length next : ℕ}
    → IsBlock bh length next
    → read_header bh 0 ≡ ok (length, next, 12)
unfolding read_header
read_header-ok bh is = ground (
  arith,
  read_u32-ok bh 0 (omega arith),
  read_u32-ok bh 4 (omega arith),
  read_sector-ok bh 8 (omega arith),
)

-- The nodes put in front one by one.
push_all : List Node → FreeList → FreeList
push_all [] list = list
push_all (node ∷ rest) list = push_all rest (push node list)

push_all-append :
    (xs ys : List Node) (list : FreeList)
    → push_all (xs ++ ys) list ≡ push_all ys (push_all xs list)
unfolding push_all
push_all-append [] ys list = refl
push_all-append (x ∷ xs) ys list = push_all-append xs ys (push x list)

push_all-root :
    (xs : List Node) (list : FreeList) → (push_all xs list).root ≡ reverse_aux xs list.root
unfolding push_all push
push_all-root [] list = refl
push_all-root (x ∷ xs) list = push_all-root xs (push x list)

push_all-blocks :
    (xs : List Node) (list : FreeList)
    → list.blocks < 2 ^ 32
    → (push_all xs list).blocks ≡ (list.blocks + total xs) % 2 ^ 32
unfolding push_all push total
push_all-blocks [] list h = omega arith
push_all-blocks (x ∷ xs) list h = omega (arith, push_all-blocks xs (push x list) (omega arith))

module _ (kzalloc : FreeList → Bool) (succeeds : (list : FreeList) → kzalloc list ≡ true) where
  init_entries-ok :
      (n : ℕ) (bh : Buffer) (pos : ℕ) (list : FreeList)
      → pos + 8 * n ≤ bh.b_size
      → init_entries kzalloc n bh pos list ≡ ok (push_all (entries_at bh.b_data pos n) list)
  unfolding init_entries init_free_list_entry entries_at push_all
  init_entries-ok zero bh pos list h = refl
  init_entries-ok (suc n) bh pos list h =
      rw (succeeds list, read_entry-ok bh pos (omega arith))
        (init_entries-ok n bh (pos + 8) _ (omega arith))

  init_chain-Chain :
      (fuel : ℕ) {dev : Device} {head blocks : ℕ} {nodes : List Node} (list : FreeList)
      → Chain dev head nodes blocks
      → blocks < fuel
      → init_chain kzalloc fuel dev head list ≡ ok (push_all nodes list)
  unfolding init_chain
  init_chain-Chain zero list c h = elim h [ ]
  init_chain-Chain (suc fuel) list stop h = unfold push_all in refl
  init_chain-Chain (suc fuel) list (block {length} {rest} bh shown is c) h =
      rw
        (
          shown,
          read_header-ok bh is,
          init_entries-ok length bh 12 list is.room,
          push_all-append (entries_at bh.b_data 12 length) rest list,
        )
        (init_chain-Chain fuel _ c (omega arith))

  -- On a chain that ends, with fuel for its blocks, and where every `kzalloc` succeeds,
  -- `spfs_free_init` reads every entry: the list has them in reverse order, and counts their blocks
  -- in 32 bits.
  pub free_init-Chain :
      (fuel : ℕ) {dev : Device} {head blocks : ℕ} {nodes : List Node}
      → Chain dev head nodes blocks
      → blocks < fuel
      → free_init kzalloc fuel dev head
        ≡ ok (record { blocks = total nodes % 2 ^ 32; root = reverse nodes })
  unfolding free_init
  free_init-Chain fuel {nodes} c h = init_chain-Chain fuel empty c h ∙ λ i.
      ok (record { blocks = blocks_path i; root = push_all-root nodes empty i })
    where
      empty : FreeList
      empty = record { blocks = 0; root = [] }

      blocks_path : (push_all nodes empty).blocks ≡ total nodes % 2 ^ 32
      blocks_path = omega (arith, push_all-blocks nodes empty (omega arith))

  init_chain_cycle :
      (fuel : ℕ) (dev : Device) (head : ℕ) {length : ℕ} (bh : Buffer) (list : FreeList)
      → sb_bread dev (suc head) ≡ some bh
      → IsBlock bh length (suc head)
      → init_chain kzalloc fuel dev (suc head) list ≡ out_of_fuel
  unfolding init_chain
  init_chain_cycle zero dev head bh list shown is = refl
  init_chain_cycle (suc fuel) dev head {length} bh list shown is =
      rw (shown, read_header-ok bh is, init_entries-ok length bh 12 list is.room)
        (init_chain_cycle fuel dev head bh _ shown is)

  -- A block that can be read, with the header of a free-list block and room for its entries, that
  -- names itself as the next one, keeps `spfs_free_init` in its loop, where every `kzalloc`
  -- succeeds: no fuel is enough.
  pub free_init_cycle :
      (fuel : ℕ) (dev : Device) (head : ℕ) {length : ℕ} (bh : Buffer)
      → sb_bread dev (suc head) ≡ some bh
      → IsBlock bh length (suc head)
      → free_init kzalloc fuel dev (suc head) ≡ out_of_fuel
  unfolding free_init
  free_init_cycle fuel dev head bh shown is = init_chain_cycle fuel dev head bh _ shown is
