-- ===== src/Examples/Again.antt =====
-- Inodes that are made one after the other, and a second file.
use spfs.Base.{
  err, ℕ, ◌+◌, ◌≡◌, ◌≢◌, refl, true, inl, inr, arith, Option, none, some, List, [], ◌∷◌, ok, bug,
  if◌then◌else◌, ◌==◌,
}
use spfs.Inode.{code, Inode}
use spfs.Tree.{lookup}
use spfs.Dir.{s_isdir}
use spfs.Dir.Entries.{length}
use spfs.File.{s_isreg}
use spfs.Icache.{Live, Vfs, Kernel, failed, fresh, found}
use spfs.Icache.Numbers.{IsIncreasing, new_inodes, new_inodes-IsIncreasing}
use spfs.Mount.{root_mode}
use spfs.Mount.Fresh.{treeless}
use spfs.Mkfs.Mount.{fresh_super, fresh_free}
use spfs.Vfs.{Created, mkdir, create}
use spfs.Examples.Mounts.{zeros, epoch, used, no_cache}
use spfs.Examples.Sessions.{clean}
use spfs.Vfs.Steps.{called}
use spfs.Vfs.Ready.{granted, behind, IsCreated, unnamed_dir}
use spfs.Vfs.First.{mkdir-first}
use spfs.Vfs.Second.{create-second}
use spfs.Vfs.Taken.{create-mkdir_taken}
use spfs.Examples.Creates.{
  root_folder, root_only, linux, second, clear_device, memory, is_ready, file_mode, short_name,
  enough,
}

-- For an inode with the number 3 there is no memory.
abbrev kernel : Kernel
kernel = record {
  iget_locked = λ cache n. elim (cache n) [
    | none ↦ if n == 3 then failed else fresh (clean n)
    | some live ↦ found live
  ];
  inode_init_owner = λ inode parent mode. record inode { i_mode = mode };
  current_time = epoch;
  uninitialised = used;
}

abbrev asked : List (Option Inode × ℕ)
asked = (none, root_mode) ∷ (some used.inode, file_mode) ∷ (some used.inode, file_mode) ∷ []

abbrev start : Vfs
start =
    treeless (fresh_super 4096)
      (record { block_size = 4096; readable = λ _. true; blocks = λ _ _. 0 }) (fresh_free 8)
      no_cache

new_inodes-IsIncreasing_example :
    (numbers : List ℕ) × (vfs' : Vfs) × (new_inodes kernel start asked ≡ ok (numbers, vfs'))
    × IsIncreasing 1 vfs'.super.id numbers
    × (vfs'.super.id ≡ 1 + length asked)
unfolding s_isreg s_isdir length
new_inodes-IsIncreasing_example =
    new_inodes-IsIncreasing kernel (λ inode parent mode. refl) start asked
      (inr refl, (inl refl, (inl refl, tt))) (omega arith)

create-second_example :
    (made : Created) × (create linux zeros enough
        (treeless second clear_device (fresh_free 8) root_only)
        1
        short_name
        file_mode
      ≡ ok made)
    × (made.res ≡ none)
    × (create linux zeros enough made.vfs 1 short_name file_mode ≡ bug)
    × (mkdir linux zeros enough made.vfs 1 short_name file_mode ≡ bug)
    × (lookup zeros 3 2 made.vfs.tree.dev made.vfs.tree.start 2 ≡ err (code 1))
unfolding s_isreg
create-second_example =
    create-second linux second clear_device (fresh_free 8) root_only 1 file_mode root_folder memory
      (is_ready file_mode) zeros enough 0 1 short_name refl refl refl (omega arith) (λ _. refl) 1
      short_name file_mode 2 (omega arith)

mkdir-first_example :
    (made : Created) × (folder' : Live) × (mkdir linux zeros enough
        (treeless second clear_device (fresh_free 8) root_only)
        1
        short_name
        root_mode
      ≡ ok made)
    × (folder'.nlink ≡ 3)
    × IsCreated second clear_device
        (granted (behind (fresh_free 8)))
        1
        folder'
        (called (unnamed_dir linux root_folder memory root_mode) short_name)
        made
unfolding s_isdir
mkdir-first_example =
    mkdir-first linux second clear_device (fresh_free 8) root_only 1 root_mode root_folder memory
      (is_ready root_mode) zeros enough 1 short_name refl refl (omega arith)

-- The root is in memory with the number 1, which is the next one.
abbrev counted_again : Vfs
counted_again = treeless (fresh_super 4096) clear_device (fresh_free 8) root_only

root_is_there : (live : Live) → linux.iget_locked root_only counted_again.super.id ≢ fresh live
root_is_there live e = ground (arith, e)

create-mkdir_taken_example :
    (create linux zeros enough counted_again 1 short_name file_mode ≡ bug)
    × (mkdir linux zeros enough counted_again 1 short_name root_mode ≡ bug)
unfolding s_isreg s_isdir
create-mkdir_taken_example =
    create-mkdir_taken linux zeros enough counted_again 1 short_name root_folder refl root_is_there
      (omega arith) file_mode root_mode refl refl
