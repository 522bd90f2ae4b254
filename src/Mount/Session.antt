-- ===== src/Mount/Session.antt =====
-- The first file of a file system that was just made and mounted.
use spfs.Base.{
  ℕ, suc, ◌+◌, ◌-◌, ◌*◌, ◌/◌, ◌%◌, ◌^◌, ◌≤◌, ◌<◌, ◌≡◌, refl, sym, ap, ◌∙◌, Bool, true, arith,
  Option, none, some, ok, err, leb-true, ltb-true,
}
use spfs.Base.Int.{pos}
use spfs.Wire.{Bytes}
use spfs.Device.{Device}
use spfs.FreeList.{FreeList, free_alloc}
use spfs.Super
use spfs.Super.{Super, initial_block_size, super_block_init}
use spfs.Inode.{Inode, name_max}
use spfs.Dir.{s_isdir}
use spfs.File.{s_isreg}
use spfs.Icache.{Live, Cache, Vfs, Kernel, fresh}
use spfs.Mkfs.{File, run}
use spfs.Mkfs.Image.{as_device, image}
use spfs.Mkfs.Image.Behind.{image-behind}
use spfs.Mkfs.Mount.{fresh_free}
use spfs.Mount.{Host, Disk, fill_super_block}
use spfs.Mount.Fresh.{fresh_root, treeless, fill_super_block-run}
use spfs.Vfs.{Fuel, Name, Created, create}
use spfs.Vfs.Ready.{granted, behind, IsReady}
use spfs.Vfs.First.{create-first}

-- The list of one extent gives up its last block.
free_alloc-fresh :
    (count : ℕ)
    → 1 < count
    → free_alloc (fresh_free count) 1 ≡ (fresh_free (count - 1), 2 + (count - 1))
unfolding free_alloc
free_alloc-fresh count h = rw (ltb-true 1 count h, leb-true 1 count (omega arith)) refl

behind-fresh : (count : ℕ) → 1 < count → behind (fresh_free count) ≡ fresh_free (count - 1)
behind-fresh count h = ap (λ r. r.0) (free_alloc-fresh count h)

granted-fresh : (count : ℕ) → 1 < count → granted (fresh_free count) ≡ count + 1
granted-fresh count h = ap (λ r. r.1) (free_alloc-fresh count h) ∙ omega arith

behind_twice-fresh :
    (count : ℕ) → 2 < count → behind (behind (fresh_free count)) ≡ fresh_free (count - 2)
behind_twice-fresh count h =
    ap behind (behind-fresh count (omega arith))
    ∙ behind-fresh (count - 1) (omega arith)
    ∙ ap fresh_free (omega arith)

granted_second-fresh : (count : ℕ) → 2 < count → granted (behind (fresh_free count)) ≡ count
granted_second-fresh count h =
    ap granted (behind-fresh count (omega arith))
    ∙ granted-fresh (count - 1) (omega arith)
    ∙ omega arith

granted_third-fresh :
    (count : ℕ) → 3 < count → granted (behind (behind (fresh_free count))) ≡ count - 1
granted_third-fresh count h =
    ap granted (behind_twice-fresh count (omega arith))
    ∙ granted-fresh (count - 2) (omega arith)
    ∙ omega arith

-- A block from the third on is behind the first two.
third_block : (k bs q : ℕ) → 2 ≤ k → bs * 2 ≤ k * bs + q
third_block k bs q h = grind arith

-- What the kernel does for a number with no inode in memory, and what `inode_init_owner` keeps: the
-- number, and under a parent without set-group-ID (bit 10) the mode.
pub record IsKernel (kernel : Kernel) (blank : ℕ → Live) : Type 0 where
  pub makes :
      (cache : Cache) (n : ℕ) → cache n ≡ none → kernel.iget_locked cache n ≡ fresh (blank n)
  pub numbers : (n : ℕ) → (blank n).inode.i_ino ≡ n
  pub keeps_mode :
      (inode parent : Inode) (mode : ℕ)
      → parent.i_mode / 2 ^ 10 % 2 ≡ 0
      → (kernel.inode_init_owner inode parent mode).i_mode ≡ mode
  pub keeps_ino :
      (inode parent : Inode) (mode : ℕ)
      → (kernel.inode_init_owner inode parent mode).i_ino ≡ inode.i_ino

fresh-IsReady :
    (host : Host) (blank : ℕ → Live) (super : Super) (dev : Device) (count : ℕ) (cache : Cache)
    (mode : ℕ)
    → IsKernel host.kernel blank
    → super.id ≡ 2
    → (blank 1).inode.start ≡ 0
    → cache 1 ≡ some (fresh_root host (blank 1))
    → cache 2 ≡ none
    → 3 < count
    → ((n : ℕ) → dev.readable n ≡ true)
    → ((q : ℕ) → 12 ≤ q → dev.blocks (count - 1) q ≡ 0)
    → 1620 ≤ dev.block_size
    → IsReady host.kernel super dev
        (fresh_free count)
        cache
        1
        mode
        (fresh_root host (blank 1))
        (blank 2)
unfolding s_isdir
fresh-IsReady host blank super dev count cache mode is id start root none_yet many shown clear
      room =
    record {
      cached = root;
      is_dir = refl;
      empty = start;
      apart = omega (arith, id);
      new = rw (id) (is.makes cache 2 none_yet);
      keeps_mode = is.keeps_mode (blank 2).inode (fresh_root host (blank 1)).inode mode refl;
      keeps_ino =
          is.keeps_ino (blank 2).inode (fresh_root host (blank 1)).inode mode
          ∙ is.numbers 2
          ∙ sym id;
      number = omega (arith, id);
      page = omega (arith, granted-fresh count (omega arith));
      root = omega (arith, granted_second-fresh count (omega arith));
      root_apart =
          omega
            (arith, granted_second-fresh count (omega arith), granted-fresh count (omega arith));
      children = omega (arith, granted_third-fresh count many);
      children_apart =
          omega (arith, granted_third-fresh count many, granted-fresh count (omega arith));
      children_root_apart =
          omega (arith, granted_third-fresh count many, granted_second-fresh count (omega arith));
      readable = shown;
      clear = rw (granted_third-fresh count many) clear;
      room = room;
    }

-- A file system is what its super block, its tree and its cache say.
vfs-treeless :
    (vfs : Vfs) (dev : Device) (free : FreeList)
    → vfs.tree ≡ record { dev = dev; free = free; start = 0 }
    → vfs ≡ treeless vfs.super dev free vfs.cache
vfs-treeless vfs dev free e =
    ap (λ tree. record { super = vfs.super; tree = tree; cache = vfs.cache }) e

module _ (host : Host) (blank : ℕ → Live) (is : IsKernel host.kernel blank) (frame : Bytes)
    (levels blocks fuel : ℕ) (disk : Disk) (dev : Device) (cache : Cache)
    (nothing : (n : ℕ) → cache n ≡ none) (memory : host.kzalloc_info ≡ true)
    (bdev : disk.is_bdev ≡ true) (small : host.sb_set_blocksize initial_block_size ≡ true)
    (accepts : File → ℕ → Option ℕ) (full : (file : File) (n : ℕ) → accepts file n ≡ some n)
    (tells : File → Bool) (told : (file : File) → tells file ≡ true) (stack : Bytes) (file : File)
    (start : file.offset ≡ 0) (bs sz : ℕ) (wide : 512 ≤ bs) (narrow : bs < 2 ^ 32)
    (large : bs * 3 ≤ sz) where
  abbrev formatted : File
  formatted = image accepts full tells told stack file start bs sz wide narrow large

  abbrev count : ℕ
  count = (sz - bs * 2) / bs % 2 ^ 32

  -- On a device that takes every write and every seek, with a block size from 1620 up to 32 bits
  -- that the kernel takes, as it does the initial one of a mount, at least four free blocks behind
  -- the header, and zeros behind the header of the block that the directory gets: `mkfs.spfs`
  -- succeeds. The device is a block device, all blocks of which can be read; no inode is in memory;
  -- the kernel has memory (`kzalloc` for `s_fs_info` and for every extent), gives a new inode with
  -- its number for a number that is not in memory, where the memory of the new root says that it
  -- has no block, and `inode_init_owner` keeps the number, and under a parent without set-group-ID
  -- the mode. Then what `mkfs.spfs` has written can be mounted, and `spfs_create` of a file in the
  -- root, with a name of at most 256 bytes, succeeds and gives the inode 2 to the dentry. But
  -- afterwards the super block of the device is refused with -EINVAL: it cannot be mounted again.
  pub create-run :
      (name : Name) (mode : ℕ) (levels' : Fuel)
      → 1620 ≤ bs
      → 1 < fuel
      → ((list : FreeList) → host.kzalloc_node list ≡ true)
      → host.sb_set_blocksize bs ≡ true
      → ((block_size : ℕ) → disk.in_blocks block_size ≡ as_device block_size formatted)
      → (blank 1).inode.start ≡ 0
      → 3 < count
      → ((q : ℕ) → 12 ≤ q → file.content ((count - 1) * bs + q) ≡ 0)
      → levels'.blocks ≡ suc blocks
      → s_isreg mode ≡ true
      → name.len ≤ name_max
      → (run accepts tells stack (some (record { st_blksize = bs; st_size = pos sz })) file
          ≡ ok formatted)
        × ((vfs : Vfs) × (made : Created) × (fill_super_block host frame levels'.probes
                (suc levels)
                fuel
                disk
                dev
                cache
              ≡ ok (1, vfs))
            × (create host.kernel frame levels' vfs 1 name mode ≡ ok made)
            × (made.res ≡ none)
            × (made.d_inode ≡ some 2)
            × (super_block_init (record made.vfs.tree.dev { block_size = 512 }) 0
                ≡ err Super.Failure.einval))
  create-run name mode levels' big enough nodes taken seen clean many clear some_blocks reg short =
      let (made_image, (vfs, mounted, super, tree, root, others)) =
        fill_super_block-run host frame levels'.probes levels fuel disk dev cache (blank 1) memory
          bdev small accepts full tells told stack file start bs sz wide narrow large enough nodes
          taken seen (is.makes cache 1 (nothing 1)) in
      let id : vfs.super.id ≡ 2 = ap (λ s. s.id) super in
      let ready =
        fresh-IsReady host blank vfs.super (disk.in_blocks bs) count vfs.cache mode is id clean root
          (others 2 (omega arith) ∙ nothing 2) many (λ n. ap (λ d. d.readable n) (seen bs))
          (λ q h.
            ap (λ d. d.blocks (count - 1) q) (seen bs)
            ∙ image-behind accepts full tells told stack file start bs sz wide narrow large
                ((count - 1) * bs + q) (third_block (count - 1) bs q (omega (arith, many)))
            ∙ clear q h)
          (omega (arith, ap (λ d. d.block_size) (seen bs))) in
      let (made, folder', done, after) =
        create-first host.kernel vfs.super (disk.in_blocks bs) (fresh_free count) vfs.cache 1 mode
          (fresh_root host (blank 1)) (blank 2) ready frame levels' blocks name some_blocks reg
          short in
      (
        made_image,
        (
          vfs,
          made,
          mounted,
          ap (λ v. create host.kernel frame levels' v 1 name mode)
                (vfs-treeless vfs (disk.in_blocks bs) (fresh_free count) tree)
              ∙ done,
          after.succeeded,
          after.entered ∙ ap some id,
          after.unmountable,
        ),
      )
