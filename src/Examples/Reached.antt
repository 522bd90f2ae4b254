-- ===== src/Examples/Reached.antt =====
-- Calls on the file system of ten blocks of 4096 bytes, from its mount on.
use spfs.Base.{ℕ, ◌≡◌, refl, arith, true, false, none, some, ok, List, ◌+◌}
use spfs.Base.Int.{pos}
use spfs.Dir.{s_isdir, for_all_children, for_all_from}
use spfs.File.{s_isreg}
use spfs.FreeList.Alloc.{serve, granted_times}
use spfs.FreeList.Sum.{covers, holds}
use spfs.Icache.{Vfs}
use spfs.Mkfs.{run}
use spfs.Mkfs.Image.{as_device}
use spfs.Mkfs.Mount.{fresh_free}
use spfs.Mount.{fill_super_block}
use spfs.Mount.Fresh.{fresh_root, fill_super_block-run}
use spfs.Mount.Session.{create-run}
use spfs.Vfs.{Created, create, lookup, visit_children}
use spfs.System.{System, forgotten, creates, looks_up, forgets, here, next}
use spfs.System.Typed.{IsTyped}
use spfs.System.Kinds.{fill_super_block-Reach}
use spfs.System.Session.{Reach-run}
use spfs.Examples.Mounts.{zeros, takes, holds_still, blank, no_cache}
use spfs.Examples.Creates.{file_mode, short_name, enough}
use spfs.Examples.Sessions.{image_file, clean, kernel, kernel-IsKernel, host, disk}

-- The mount, and a file in the root.
session :
    (vfs : Vfs) × (made : Created) × (fill_super_block host zeros 3 1 2 disk
        (as_device 1024 image_file)
        no_cache
      ≡ ok (1, vfs))
    × (create kernel zeros enough vfs 1 short_name file_mode ≡ ok made)
unfolding s_isreg
session =
    let (made_image, (vfs, made, mounted, created, done, entered, unmountable)) =
      create-run host clean kernel-IsKernel zeros 0 1 2 disk (as_device 1024 image_file) no_cache
        (λ _. refl) refl refl refl takes (λ _ _. refl) holds_still (λ _. refl) zeros blank refl 4096
        40960 (omega arith) (omega arith) (omega arith) short_name file_mode enough (omega arith)
        (omega arith) (λ _. refl) refl (λ _. refl) refl (omega arith) (λ _ _. refl) refl refl
        (omega arith) in
    (vfs, made, mounted, created)

abbrev system : Vfs → System
system vfs = record { vfs = vfs; sizes = λ _. 0; held = λ _. false }

Reach-run_example :
    (run takes holds_still zeros (some (record { st_blksize = 4096; st_size = pos 40960 })) blank
      ≡ ok image_file)
    × ((requests : List ℕ) × ((serve (fresh_free 8) requests).0 ≡ session.1.vfs.tree.free)
        × ((b : ℕ)
            → holds session.1.vfs.tree.free.root b
                + granted_times (serve (fresh_free 8) requests).1 b
              ≡ covers 2 8 b))
Reach-run_example =
    Reach-run host zeros 3 0 2 disk (as_device 1024 image_file) no_cache (λ _. refl) (clean 1) refl
      refl refl takes (λ _ _. refl) holds_still (λ _. refl) zeros blank refl 4096 40960
      (omega arith) (omega arith) (omega arith) 1 session.0 (λ _. 0) (λ _. false) (λ _. true)
      (system session.1.vfs) (omega arith) (λ _. refl) refl (λ _. refl) refl session.2
      (next here (creates enough 1 short_name file_mode session.1 session.3))

-- The mount alone, with the root that it leaves in memory.
mount :
    (vfs : Vfs) × (fill_super_block host zeros 3 1 2 disk (as_device 1024 image_file) no_cache
      ≡ ok (1, vfs))
    × (vfs.cache 1 ≡ some (fresh_root host (clean 1)))
mount =
    let (made, (vfs, mounted, super, tree, root, others)) =
      fill_super_block-run host zeros 3 0 2 disk (as_device 1024 image_file) no_cache (clean 1) refl
        refl refl takes (λ _ _. refl) holds_still (λ _. refl) zeros blank refl 4096 40960
        (omega arith) (omega arith) (omega arith) (omega arith) (λ _. refl) refl (λ _. refl) refl in
    (vfs, mounted, root)

-- The empty root has no child.
finds_none : lookup kernel zeros enough mount.0 1 short_name.text ≡ ok (mount.0, none)
unfolding lookup visit_children for_all_children for_all_from s_isdir
finds_none = rw (lookup, mount.2) refl

fill_super_block-Reach_example : IsTyped (fresh_root host (clean 1))
unfolding forgotten
fill_super_block-Reach_example =
    fill_super_block-Reach host zeros 3 1 2 disk (as_device 1024 image_file) no_cache 1 mount.0
      (λ _. 0) (λ _. false) (λ _. false) (forgotten (system mount.0) 2 true 5) (λ _. refl) mount.1
      (next (next here (looks_up enough 1 short_name.text none mount.0 finds_none))
        (forgets 2 true 5 refl))
      1 (fresh_root host (clean 1)) mount.2
