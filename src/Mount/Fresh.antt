-- ===== src/Mount/Fresh.antt =====
-- The mount of a file system without a tree.
use spfs.Base.{
  ℕ, suc, ◌+◌, ◌-◌, ◌*◌, ◌/◌, Bool, ◌%◌, ◌^◌, ◌≤◌, ◌<◌, ◌≡◌, ◌≢◌, refl, true, ap, ◌∙◌, ◌>>=◌, ◌==◌,
  if◌then◌else◌, Option, some, ok, ==_true, ==_false,
}
use spfs.Base.Int.{pos}
use spfs.Wire.{Bytes}
use spfs.Device.{Device}
use spfs.FreeList.{FreeList, free_init}
use spfs.Super.{Super, initial_block_size, super_block_init}
use spfs.Tree.{lookup, modify_from}
use spfs.Dir.{s_isdir}
use spfs.File.{s_isreg}
use spfs.Icache.{
  Live, Cache, Vfs, Ops, null, fresh, Kernel, keep, owned, setup_inode_fp, new_inode, inode_by_id,
}
use spfs.Mkfs.{File, run}
use spfs.Mkfs.Image.{as_device, image}
use spfs.Mkfs.Mount.{fresh_super, fresh_free, run-mounts}
use spfs.Mount.{Host, Disk, root_mode, find_root, own_root, fill_super_block}

-- The root inode that a mount makes: of the memory that the kernel gives only the mode, the owner
-- and the times are set.
abbrev pub fresh_root : Host → Live → Live
fresh_root host live = record {
  inode = record live.inode {
    i_mode = root_mode;
    i_ctime = host.kernel.current_time;
    i_atime = host.kernel.current_time;
    i_mtime = host.kernel.current_time;
    uid = host.current_fsuid;
    gid = host.current_fsgid;
  };
  ops = some Ops.dir_ops;
  nlink = live.nlink + 1;
}

-- A file system without a tree.
abbrev pub treeless : Super → Device → FreeList → Cache → Vfs
treeless super dev free cache = record {
  super = super;
  tree = record { dev = dev; free = free; start = 0 };
  cache = cache;
}

-- The super block in memory behind the first inode.
abbrev pub rooted : Super → Super
rooted super = record super { id = (super.id + 1) % 2 ^ 64; root_id = super.id }

module _ (kernel : Kernel) (frame : Bytes) (probes levels : ℕ) (super : Super) (dev : Device)
    (free : FreeList) (cache : Cache) where
  pub inode_by_id-treeless :
      (n : ℕ) (live : Live)
      → kernel.iget_locked cache n ≡ fresh live
      → inode_by_id kernel frame probes (suc levels) (treeless super dev free cache) n
        ≡ ok (null, treeless super dev free cache)
  unfolding inode_by_id lookup modify_from
  inode_by_id-treeless n live new = rw (inode_by_id, new) refl

  -- The root inode, before it gets its user and group.
  abbrev unowned_root : Live → Live
  unowned_root live = record {
    inode = record live.inode {
      i_mode = root_mode;
      i_ctime = kernel.current_time;
      i_atime = kernel.current_time;
      i_mtime = kernel.current_time;
    };
    ops = some Ops.dir_ops;
    nlink = live.nlink + 1;
  }

  find_root-treeless :
      (live : Live)
      → super.root_id ≡ super.id
      → kernel.iget_locked cache super.id ≡ fresh live
      → find_root kernel frame probes (suc levels) (treeless super dev free cache)
        ≡ ok (super.id, keep (treeless (rooted super) dev free cache) super.id (unowned_root live))
  unfolding find_root new_inode owned setup_inode_fp s_isreg s_isdir keep
  find_root-treeless live same new =
      rw
        (
          find_root,
          inode_by_id-treeless super.root_id live (ap (kernel.iget_locked cache) same ∙ new),
          new_inode,
          new,
        )
        refl

module _ (host : Host) (frame : Bytes) (probes levels fuel : ℕ) (disk : Disk) (dev : Device)
    (cache : Cache) (live : Live) (memory : host.kzalloc_info ≡ true) (bdev : disk.is_bdev ≡ true)
    (small : host.sb_set_blocksize initial_block_size ≡ true) where
  -- The steps of a mount up to the root inode.
  pub mount_steps :
      (super : Super) (free : FreeList)
      → super_block_init (disk.in_blocks initial_block_size) 0 ≡ ok super
      → host.sb_set_blocksize super.block_size ≡ true
      → free_init host.kzalloc_node fuel (disk.in_blocks super.block_size) super.free_list_offset
        ≡ ok free
      → fill_super_block host frame probes (suc levels) fuel disk dev cache ≡ (
          find_root host.kernel frame probes (suc levels) (record {
            super = super;
            tree = record {
              dev = disk.in_blocks super.block_size;
              free = free;
              start = super.btree_offset;
            };
            cache = cache;
          })
          >>= own_root host)
  unfolding fill_super_block
  mount_steps super free checked large read = simp (memory, bdev, small, checked, large, read)

  -- A mount of what holds a super block without a tree, whose root is the next inode to be made.
  fill_super_block-treeless :
      (super : Super) (free : FreeList)
      → super_block_init (disk.in_blocks initial_block_size) 0 ≡ ok super
      → host.sb_set_blocksize super.block_size ≡ true
      → free_init host.kzalloc_node fuel (disk.in_blocks super.block_size) super.free_list_offset
        ≡ ok free
      → super.btree_offset ≡ 0
      → super.root_id ≡ super.id
      → host.kernel.iget_locked cache super.id ≡ fresh live
      → (vfs : Vfs) × (fill_super_block host frame probes (suc levels) fuel disk dev cache
          ≡ ok (super.id, vfs))
        × (vfs.super ≡ rooted super)
        × (vfs.tree ≡ record { dev = disk.in_blocks super.block_size; free = free; start = 0 })
        × (vfs.cache super.id ≡ some (fresh_root host live))
        × ((k : ℕ) → k ≢ super.id → vfs.cache k ≡ cache k)
  unfolding fill_super_block own_root keep
  fill_super_block-treeless super free checked large read empty same new = (
    record {
      super = rooted super;
      tree = record { dev = disk.in_blocks super.block_size; free = free; start = 0 };
      cache = λ k.
          if k == super.id
          then some (fresh_root host live)
          else if k == super.id
          then some (unowned_root host.kernel frame probes levels super dev free cache live)
          else cache k;
    },
    mount_steps super free checked large read
        ∙ ap
            (λ n.
              find_root host.kernel frame probes (suc levels) (record {
                super = super;
                tree = record { dev = disk.in_blocks super.block_size; free = free; start = n };
                cache = cache;
              })
              >>= own_root host)
            empty
        ∙ ap (λ r. r >>= own_root host)
            (find_root-treeless host.kernel frame probes levels super
              (disk.in_blocks super.block_size) free cache live same new)
        ∙ rw (own_root, ==_true super.id super.id refl) refl,
    refl,
    refl,
    rw (==_true super.id super.id refl) refl,
    λ k h. rw (==_false k super.id h) refl,
  )

  -- What `mkfs.spfs` has written, on a device that takes every write and every seek, with room for
  -- the header and a block, and with a block size from 512 up to 32 bits that the kernel takes, as
  -- it does the initial one, can be mounted, where it is a block device, all blocks of which can be
  -- read, `kzalloc` gives memory for `s_fs_info` and for every extent, and `iget_locked` gives a
  -- new inode for the number 1: the root is this inode, the next one gets 2, there is no tree, and
  -- the list of free blocks is one extent, of all blocks from the third on. Of the root only the
  -- mode, the owner, the times, the operations and a link are set: its capacity and the start of
  -- its blocks are what the memory of the new inode held before.
  module _ (accepts : File → ℕ → Option ℕ) (full : (file : File) (n : ℕ) → accepts file n ≡ some n)
      (tells : File → Bool) (told : (file : File) → tells file ≡ true) (stack : Bytes) (file : File)
      (start : file.offset ≡ 0) (bs sz : ℕ) (wide : 512 ≤ bs) (narrow : bs < 2 ^ 32)
      (large : bs * 3 ≤ sz) where
    abbrev image_file : File
    image_file = image accepts full tells told stack file start bs sz wide narrow large

    pub fill_super_block-run :
        1 < fuel
        → ((list : FreeList) → host.kzalloc_node list ≡ true)
        → host.sb_set_blocksize bs ≡ true
        → ((block_size : ℕ) → disk.in_blocks block_size ≡ as_device block_size image_file)
        → host.kernel.iget_locked cache 1 ≡ fresh live
        → (run accepts tells stack (some (record { st_blksize = bs; st_size = pos sz })) file
            ≡ ok image_file)
          × ((vfs : Vfs) × (fill_super_block host frame probes (suc levels) fuel disk dev cache
                ≡ ok (1, vfs))
              × (vfs.super ≡ record (fresh_super bs) { id = 2 })
              × (vfs.tree ≡ record {
                dev = disk.in_blocks bs;
                free = fresh_free ((sz - bs * 2) / bs % 2 ^ 32);
                start = 0;
              })
              × (vfs.cache 1 ≡ some (fresh_root host live))
              × ((k : ℕ) → k ≢ 1 → vfs.cache k ≡ cache k))
    fill_super_block-run enough nodes taken seen new =
        let (made, checked, read) =
          run-mounts accepts full tells told stack file start bs sz wide narrow large
            host.kzalloc_node nodes fuel enough in
        (
          made,
          fill_super_block-treeless (fresh_super bs) (fresh_free ((sz - bs * 2) / bs % 2 ^ 32))
              (ap (λ d. super_block_init d 0) (seen 512) ∙ checked) taken
              (ap (λ d. free_init host.kzalloc_node fuel d 1) (seen bs) ∙ read) refl refl new,
        )
