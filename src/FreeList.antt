-- ===== src/FreeList.antt =====
-- free_list.c: the list of free extents, read from a chain of blocks on the device, and the
-- allocator. The mutex is held over each whole operation, so an operation is one step.

pub mod Alloc
pub mod FirstFit
pub mod Init
pub mod Sum
pub mod Served
use spfs.Base.{
  ℕ, zero, suc, ◌+◌, ◌-◌, ◌%◌, ◌^◌, Bool, not, ltb, leb, ◌==◌, if◌then◌else◌, List, [], ◌∷◌, Res,
  ok, err, out_of_fuel, ◌>>=◌, or_return, or_null, return_if,
}
use spfs.Wire.{Buffer, read_u32, read_sector}
use spfs.Device.{Device, sb_bread}

-- SPOOKY_FS_FL_MAGIC
abbrev pub fl_magic : ℕ
fl_magic = 0xDEADBEEF

-- The codes that the functions of this file return beside 0: `-EINVAL` and 1.
pub data Failure : Type 0 where
  einval failed : Failure

-- `struct spfs_free_node`, less `next`: the list is a `List`.
pub record Node : Type 0 where
  pub start : ℕ
  pub blocks : ℕ

-- `struct spfs_free_list`, less its lock.
pub record FreeList : Type 0 where
  pub blocks : ℕ
  pub root : List Node

unfoldable pub read_entry : Buffer → ℕ → Res Failure (Node × ℕ)
read_entry bh pos = do
  (start, pos) ← or_return failed (read_sector bh pos)
  (blocks, pos) ← or_return failed (read_u32 bh pos)
  ok (record { start = start; blocks = blocks }, pos)

-- `length` and `next` of a free-list block. The magic is tested when all three are read.
unfoldable pub read_header : Buffer → ℕ → Res Failure (ℕ × ℕ × ℕ)
read_header bh pos = do
  (magic, pos) ← or_return einval (read_u32 bh pos)
  (length, pos) ← or_return einval (read_u32 bh pos)
  (next, pos) ← or_return einval (read_sector bh pos)
  return_if (not (magic == fl_magic)) einval (ok (length, next, pos))

-- A node is put before the others, and its blocks are counted in a `uint32_t`.
unfoldable pub push : Node → FreeList → FreeList
push node list = record { blocks = (list.blocks + node.blocks) % 2 ^ 32; root = node ∷ list.root }

-- `kzalloc list` says whether the allocation of one more node succeeds.
module _ (kzalloc : FreeList → Bool) where
  unfoldable pub init_free_list_entry : FreeList → Buffer → ℕ → Res Failure (Node × ℕ)
  init_free_list_entry list bh pos =
      return_if (not (kzalloc list)) failed (or_return failed (read_entry bh pos))

  -- The `for` loop, with the entries that are left.
  unfoldable pub init_entries : ℕ → Buffer → ℕ → FreeList → Res Failure FreeList
  init_entries zero bh pos list = ok list
  init_entries (suc left) bh pos list = do
    (node, pos) ← init_free_list_entry list bh pos
    init_entries left bh pos (push node list)

  -- The jumps back to `Lit`, one for each unit of fuel. A block 0 ends the chain.
  unfoldable pub init_chain : ℕ → Device → ℕ → FreeList → Res Failure FreeList
  init_chain zero dev head list = out_of_fuel
  init_chain (suc fuel) dev zero list = ok list
  init_chain (suc fuel) dev (suc head) list = do
    bh ← or_null failed (sb_bread dev (suc head))
    (length, next, pos) ← read_header bh 0
    list ← init_entries length bh pos list
    init_chain fuel dev next list

  unfoldable pub free_init : ℕ → Device → ℕ → Res Failure FreeList
  unfolding init_chain init_entries init_free_list_entry
  free_init fuel dev head = init_chain fuel dev head (record { blocks = 0; root = [] })

-- The walk of `spfs_free_alloc`: the first node with enough blocks gives up its last ones. The
-- result is the first block of what was cut off, or 0; the flag says whether a node was found.
unfoldable pub take_from : List Node → ℕ → List Node × ℕ × Bool
take_from [] n = ([], 0, Bool.false)
take_from (node ∷ rest) n =
    let (rest', result, found) = take_from rest n in
    if leb n node.blocks
    then (
      record node { blocks = node.blocks - n } ∷ rest,
      node.start + (node.blocks - n),
      Bool.true,
    )
    else (node ∷ rest', result, found)

-- Nothing is tried unless the whole list has more than `n` blocks.
unfoldable pub free_alloc : FreeList → ℕ → FreeList × ℕ
unfolding take_from
free_alloc list n =
    let (root, result, found) = take_from list.root n in
    if ltb n list.blocks
    then (record { blocks = if found then list.blocks - n else list.blocks; root = root }, result)
    else (list, 0)

-- `spfs_free_dealloc` gives nothing back and says 0.
unfoldable pub free_dealloc : FreeList → ℕ → ℕ → FreeList × ℕ
free_dealloc list root n = (list, 0)
