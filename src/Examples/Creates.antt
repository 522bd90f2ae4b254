-- ===== src/Examples/Creates.antt =====
-- The first file in the root of a file system of ten blocks.
use spfs.Base.{ℕ, ◌≡◌, refl, arith, true, [], none, some, ok, bug, if◌then◌else◌, ◌==◌}
use spfs.Device.{Device}
use spfs.FreeList.{free_alloc}
use spfs.Super.{Super}
use spfs.Mkfs.Mount.{fresh_super, fresh_free}
use spfs.Dir.{s_isdir}
use spfs.File.{s_isreg}
use spfs.Icache.{Live, Cache, Kernel, Ops, fresh, found}
use spfs.Mount.{root_mode}
use spfs.Mount.Fresh.{treeless}
use spfs.Vfs.{Fuel, Name, Created, create, lookup, iterate, write_inode}
use spfs.Vfs.Writes.{write_inode-same}
use spfs.Insert.{Tree}
use spfs.Vfs.Lookup.{IsString, lookup-create}
use spfs.Vfs.Orphans.{orphan_crashes}
use spfs.Dir.Entries.{length}
use spfs.Examples.Folders.{folder, folder-IsDirectory}
use spfs.Vfs.Ready.{granted, behind, IsReady, IsCreated, unnamed}
use spfs.Vfs.First.{create-first}
use spfs.Vfs.Steps.{called}
use spfs.Examples.Mounts.{zeros, epoch, used}

abbrev pub clear_device : Device
clear_device = record { block_size = 4096; readable = λ _. true; blocks = λ _ _. 0 }

abbrev pub root_folder : Live
root_folder = record {
  inode = record used.inode { i_mode = root_mode; start = 0 };
  ops = some Ops.dir_ops;
  nlink = 2;
}

-- Only the root is in memory.
abbrev pub root_only : Cache
root_only k = if k == 1 then some root_folder else none

abbrev pub linux : Kernel
linux = record {
  iget_locked = λ cache n. elim (cache n) [
    | none ↦ fresh (record used { inode = record used.inode { i_ino = n } })
    | some live ↦ found live
  ];
  inode_init_owner = λ inode parent mode. record inode { i_mode = mode };
  current_time = epoch;
  uninitialised = used;
}

abbrev pub second : Super
second = record (fresh_super 4096) { id = 2 }

-- A file that its owner may read and write, 0100600.
abbrev pub file_mode : ℕ
file_mode = 0x8180

abbrev pub short_name : Name
short_name = record { text = λ k. if k == 3 then 0 else 97; len = 3 }

abbrev pub enough : Fuel
enough = record { probes = 3; levels = 1; blocks = 2; words = 4 }

abbrev pub memory : Live
memory = record used { inode = record used.inode { i_ino = 2 } }

pub is_ready :
    (mode : ℕ)
    → IsReady linux second clear_device (fresh_free 8) root_only 1 mode root_folder memory
unfolding s_isdir free_alloc
is_ready mode = record {
  cached = refl;
  is_dir = refl;
  empty = refl;
  apart = omega arith;
  new = refl;
  keeps_mode = refl;
  keeps_ino = refl;
  number = omega arith;
  page = omega arith;
  root = omega arith;
  root_apart = omega arith;
  children = omega arith;
  children_apart = omega arith;
  children_root_apart = omega arith;
  readable = λ _. refl;
  clear = λ _ _. refl;
  room = omega arith;
}

create-first_example :
    (made : Created) × (folder' : Live) × (create linux zeros enough
        (treeless second clear_device (fresh_free 8) root_only)
        1
        short_name
        file_mode
      ≡ ok made)
    × IsCreated second clear_device
        (granted (behind (fresh_free 8)))
        1
        folder'
        (called (unnamed linux root_folder memory file_mode) short_name)
        made
unfolding s_isreg
create-first_example =
    create-first linux second clear_device (fresh_free 8) root_only 1 file_mode root_folder memory
      (is_ready file_mode) zeros enough 1 short_name refl refl (omega arith)

linux-finds :
    (cache : Cache) (n : ℕ) (live : Live)
    → cache n ≡ some live
    → linux.iget_locked cache n ≡ found live
linux-finds cache n live e = rw (e) refl

pub short_name-IsString : IsString short_name
short_name-IsString = record { fits = omega arith; inner = λ q h. ground arith; end = refl }

lookup-create_example :
    (made : Created) × (create linux zeros enough
        (treeless second clear_device (fresh_free 8) root_only)
        1
        short_name
        file_mode
      ≡ ok made)
    × (made.res ≡ none)
    × (made.d_inode ≡ some 2)
    × (lookup linux zeros enough made.vfs 1 short_name.text ≡ ok (made.vfs, some 2))
unfolding s_isreg
lookup-create_example =
    lookup-create linux second clear_device (fresh_free 8) root_only 1 file_mode root_folder memory
      (is_ready file_mode) linux-finds zeros enough 0 short_name refl (omega arith) (omega arith)
      short_name-IsString refl

-- A directory with the child 7, which is not in memory.
abbrev folder_only : Cache
folder_only k =
    if k == 1
    then some (record { inode = folder.parent; ops = some Ops.dir_ops; nlink = 2 })
    else none

orphan_crashes_example :
    (lookup linux zeros enough (treeless second folder.dev folder.free folder_only) 1 (λ _. 0)
      ≡ bug)
    × (iterate linux zeros enough
          (λ _ _. true)
          (λ ctx. (record ctx { pos = 2 }, true))
          (treeless second folder.dev folder.free folder_only)
          1
          (record { pos = 0; emitted = [] })
        ≡ bug)
unfolding length
orphan_crashes_example =
    orphan_crashes linux zeros enough second folder.dev folder.free folder_only 0 refl 7
      (record used { inode = record used.inode { i_ino = 7 } }) refl (λ _ _. true)
      (λ ctx. (record ctx { pos = 2 }, true)) 1
      (record { inode = folder.parent; ops = some Ops.dir_ops; nlink = 2 }) 0 [] (λ _. 0)
      (record { pos = 0; emitted = [] }) refl folder-IsDirectory refl (omega arith) refl
      (omega arith)

-- A tree whose root is in block 5.
abbrev planted : Tree
planted = record { dev = clear_device; free = fresh_free 8; start = 5 }

write_inode-same_example :
    write_inode zeros enough planted used
    ≡ write_inode zeros enough planted
        (record used { inode = record used.inode { i_mode = file_mode; capacity = 9 } })
write_inode-same_example =
    write_inode-same zeros enough planted used
      (record used { inode = record used.inode { i_mode = file_mode; capacity = 9 } }) refl
