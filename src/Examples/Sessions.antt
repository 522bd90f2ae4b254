-- ===== src/Examples/Sessions.antt =====
-- A file system on a file of ten blocks of 4096 bytes: made, mounted, and given a file.
use spfs.Base.{ℕ, ◌≡◌, refl, true, arith, none, some, ok, err}
use spfs.Base.Int.{pos}
use spfs.Super
use spfs.Super.{super_block_init}
use spfs.File.{s_isreg}
use spfs.Icache.{Live, Vfs, Kernel, fresh, found}
use spfs.Mkfs.{File, run}
use spfs.Mkfs.Image.{image, as_device}
use spfs.Mount.{Host, Disk, fill_super_block}
use spfs.Mount.Session.{IsKernel, create-run}
use spfs.Vfs.{Created, create}
use spfs.Examples.Mounts.{zeros, epoch, used, takes, holds_still, blank, no_cache}
use spfs.Examples.Creates.{file_mode, short_name, enough}

abbrev pub image_file : File
image_file =
    image takes (λ _ _. refl) holds_still (λ _. refl) zeros blank refl 4096 40960 (omega arith)
      (omega arith) (omega arith)

-- The memory of a new inode: it has no block.
abbrev pub clean : ℕ → Live
clean n = record used { inode = record used.inode { i_ino = n; start = 0 } }

abbrev pub kernel : Kernel
kernel = record {
  iget_locked = λ cache n. elim (cache n) [ none ↦ fresh (clean n) | some live ↦ found live ];
  inode_init_owner = λ inode parent mode. record inode { i_mode = mode };
  current_time = epoch;
  uninitialised = used;
}

pub kernel-IsKernel : IsKernel kernel clean
kernel-IsKernel = record {
  makes = λ cache n e. rw (e) refl;
  numbers = λ n. refl;
  keeps_mode = λ inode parent mode h. refl;
  keeps_ino = λ inode parent mode. refl;
}

abbrev pub host : Host
host = record {
  kernel = kernel;
  kzalloc_info = true;
  kzalloc_node = λ _. true;
  sb_set_blocksize = λ _. true;
  current_fsuid = 1000;
  current_fsgid = 1000;
}

abbrev pub disk : Disk
disk = record { is_bdev = true; in_blocks = λ block_size. as_device block_size image_file }

create-run_example :
    (run takes holds_still zeros (some (record { st_blksize = 4096; st_size = pos 40960 })) blank
      ≡ ok image_file)
    × ((vfs : Vfs) × (made : Created) × (fill_super_block host zeros 3 1 2 disk
            (as_device 1024 image_file)
            no_cache
          ≡ ok (1, vfs))
        × (create kernel zeros enough vfs 1 short_name file_mode ≡ ok made)
        × (made.res ≡ none)
        × (made.d_inode ≡ some 2)
        × (super_block_init (record made.vfs.tree.dev { block_size = 512 }) 0
            ≡ err Super.Failure.einval))
unfolding s_isreg
create-run_example =
    create-run host clean kernel-IsKernel zeros 0 1 2 disk (as_device 1024 image_file) no_cache
      (λ _. refl) refl refl refl takes (λ _ _. refl) holds_still (λ _. refl) zeros blank refl 4096
      40960 (omega arith) (omega arith) (omega arith) short_name file_mode enough (omega arith)
      (omega arith) (λ _. refl) refl (λ _. refl) refl (omega arith) (λ _ _. refl) refl refl
      (omega arith)
