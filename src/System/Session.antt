-- ===== src/System/Session.antt =====
-- A file system that `mkfs.spfs` has made, from its mount on: its blocks, whatever is called.
use spfs.Base.{
  ℕ, suc, Bool, true, ◌+◌, ◌*◌, ◌-◌, ◌/◌, ◌%◌, ◌^◌, ◌≤◌, ◌<◌, ◌≡◌, ap, sym, ◌∙◌, List, none, some,
  Option, ok, err, bug, out_of_fuel, Res, arith,
}
use mathlib.Core.Path.{subst}
use mathlib.Core.Option.{none-ne-some}
use spfs.Inode.{Failure}
use spfs.Base.Int.{pos}
use spfs.Wire.{Bytes}
use spfs.Device.{Device}
use spfs.Super.{initial_block_size}
use spfs.FreeList.{FreeList}
use spfs.FreeList.Alloc.{IsValid, serve, granted_times}
use spfs.FreeList.Sum.{covers, holds, total}
use spfs.Mkfs.{File, run}
use spfs.Mkfs.Image.{as_device, image}
use spfs.Mkfs.Mount.{fresh_free}
use spfs.Mount.{Host, Disk, fill_super_block}
use spfs.Mount.Fresh.{fill_super_block-run}
use spfs.Icache.{Live, Cache, Vfs, fresh}
use spfs.System.{System, Reach}
use spfs.System.Kinds.{fill_super_block-AllTyped}
use spfs.System.Blocks.{Reach-serve}

fresh_free-IsValid : (count : ℕ) → IsValid (fresh_free count)
unfolding total
fresh_free-IsValid count = record { counted = omega arith; positive = (omega arith, tt) }

holds-fresh_free : (count b : ℕ) → holds (fresh_free count).root b ≡ covers 2 count b
unfolding holds
holds-fresh_free count b = omega arith

-- The free list of a mount that succeeds.
abbrev mounted_free : FreeList → Res Failure (ℕ × Vfs) → FreeList
mounted_free other (ok (root, vfs)) = vfs.tree.free
mounted_free other (err e) = other
mounted_free other bug = other
mounted_free other out_of_fuel = other

module _ (host : Host) (frame : Bytes) (probes levels fuel : ℕ) (disk : Disk) (dev : Device)
    (cache : Cache) (empty : (n : ℕ) → cache n ≡ none) (live : Live)
    (memory : host.kzalloc_info ≡ true) (bdev : disk.is_bdev ≡ true)
    (small : host.sb_set_blocksize initial_block_size ≡ true) (accepts : File → ℕ → Option ℕ)
    (full : (file : File) (n : ℕ) → accepts file n ≡ some n) (tells : File → Bool)
    (told : (file : File) → tells file ≡ true) (stack : Bytes) (file : File)
    (start : file.offset ≡ 0) (bs sz : ℕ) (wide : 512 ≤ bs) (narrow : bs < 2 ^ 32)
    (large : bs * 3 ≤ sz) where
  abbrev formatted : File
  formatted = image accepts full tells told stack file start bs sz wide narrow large

  -- The blocks behind the header and the list of free blocks.
  abbrev count : ℕ
  count = (sz - bs * 2) / bs % 2 ^ 32

  -- `mkfs.spfs` runs on a device that takes every write, with room for the header and a block, and
  -- with a block size from 512 up to 32 bits that the kernel takes; what it leaves is mounted,
  -- where the kernel gives memory, a new inode for the number 1 and had no inode in memory, and
  -- any calls of the tables follow. Then `mkfs.spfs` has succeeded, and the free list is what some
  -- allocations leave of the one at first: each block that was free at first (from block 2 on, as
  -- many as there are whole blocks behind two, in 32 bits) is either free still or in just one
  -- grant, and no other block is free or granted.
  pub Reach-run :
      (root : ℕ) (vfs : Vfs) (sizes : ℕ → ℕ) (held is_open : ℕ → Bool) (s : System)
      → 1 < fuel
      → ((list : FreeList) → host.kzalloc_node list ≡ true)
      → host.sb_set_blocksize bs ≡ true
      → ((block_size : ℕ) → disk.in_blocks block_size ≡ as_device block_size formatted)
      → host.kernel.iget_locked cache 1 ≡ fresh live
      → fill_super_block host frame probes (suc levels) fuel disk dev cache ≡ ok (root, vfs)
      → Reach host.kernel frame is_open (record { vfs = vfs; sizes = sizes; held = held }) s
      → (run accepts tells stack (some (record { st_blksize = bs; st_size = pos sz })) file
          ≡ ok formatted)
        × ((requests : List ℕ) × ((serve (fresh_free count) requests).0 ≡ s.vfs.tree.free)
            × ((b : ℕ)
                → holds s.vfs.tree.free.root b
                    + granted_times (serve (fresh_free count) requests).1 b
                  ≡ covers 2 count b))
  Reach-run root vfs sizes held is_open s enough nodes taken seen new mounted reached =
      let (made, (vfs', mounted', super, tree, rooted, others)) =
        fill_super_block-run host frame probes levels fuel disk dev cache live memory bdev small
          accepts full tells told stack file start bs sz wide narrow large enough nodes taken seen
          new in
      let free : vfs.tree.free ≡ fresh_free count =
        ap (mounted_free vfs.tree.free) (sym mounted ∙ mounted') ∙ ap (λ t. t.free) tree in
      let typed =
        fill_super_block-AllTyped host frame probes (suc levels) fuel disk dev cache root vfs
          mounted (λ n live there. absurd (none-ne-some live (sym (empty n) ∙ there))) in
      let (valid, (requests, left, split)) =
        Reach-serve host.kernel frame is_open (record { vfs = vfs; sizes = sizes; held = held }) s
          typed (subst IsValid (sym free) (fresh_free-IsValid count)) reached in
      (
        made,
        (
          requests,
          ap (λ f. (serve f requests).0) (sym free) ∙ left,
          λ b.
              ap (λ f. holds s.vfs.tree.free.root b + granted_times (serve f requests).1 b)
                (sym free)
              ∙ sym (split b)
              ∙ ap (λ f. holds f.root b) free
              ∙ holds-fresh_free count b,
        ),
      )
