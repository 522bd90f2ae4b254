-- ===== src/Examples/Mounts.antt =====
-- The mount of what `mkfs.spfs` writes on a file of ten blocks.
use spfs.Base.{ℕ, refl, Bool, true, arith, Option, none, some}
use spfs.Wire.{Bytes}
use spfs.Inode.{Time}
use spfs.Mkfs.{File}
use spfs.Mkfs.Image.{image, as_device}
use spfs.Icache.{Live, Cache, Kernel, fresh, found}
use spfs.Mount.{Host, Disk}

abbrev pub takes : File → ℕ → Option ℕ
takes file n = some n

abbrev pub holds_still : File → Bool
holds_still file = true

abbrev pub zeros : Bytes
zeros = λ _. 0

abbrev pub blank : File
blank = record { offset = 0; content = zeros }

abbrev formatted : File
formatted =
    image takes (λ _ _. refl) holds_still (λ _. refl) zeros blank refl 512 5120 (omega arith)
      (omega arith) (omega arith)

abbrev pub epoch : Time
epoch = record { tv_sec = 0; tv_nsec = 0 }

-- The memory of a new inode was used before: it says that there is a block 77.
abbrev pub used : Live
used = record {
  inode = record {
    i_ino = 1;
    i_mode = 0;
    gid = 5;
    uid = 5;
    i_atime = epoch;
    i_mtime = epoch;
    i_ctime = epoch;
    capacity = 3;
    start = 77;
    name = zeros;
  };
  ops = none;
  nlink = 1;
}

abbrev kernel : Kernel
kernel = record {
  iget_locked = λ cache n. elim (cache n) [ none ↦ fresh used | some live ↦ found live ];
  inode_init_owner = λ inode parent mode. record inode { i_mode = mode };
  current_time = epoch;
  uninitialised = used;
}

abbrev host : Host
host = record {
  kernel = kernel;
  kzalloc_info = true;
  kzalloc_node = λ _. true;
  sb_set_blocksize = λ _. true;
  current_fsuid = 1000;
  current_fsgid = 1000;
}

abbrev disk : Disk
disk = record { is_bdev = true; in_blocks = λ block_size. as_device block_size formatted }

abbrev pub no_cache : Cache
no_cache k = none
