-- ===== src/Examples/Names.antt =====
-- A directory with a child that has a name.
use spfs.Base.{◌⊎◌, ◌≡◌, refl, arith, true, [], ◌∷◌, none, some, ok, if◌then◌else◌, ◌==◌}
use spfs.Icache.{Live, Cache, Ops}
use spfs.Mount.Fresh.{treeless}
use spfs.Vfs.{lookup, iterate}
use spfs.Dir.Entries.{length}
use spfs.Examples.Folders.{folder, folder-IsFolder}
use spfs.Vfs.Steps.{called}
use spfs.Vfs.Emit.{Kid, IsKid, emit_all}
use spfs.Vfs.Iterate.{iterate-emits}
use spfs.Wire.{copy}
use spfs.Examples.Mounts.{zeros, used}
use spfs.Examples.Creates.{linux, second, short_name, enough}
use spfs.Vfs.Search.{FirstCalled, NoneCalled, lookup-FirstCalled}
use spfs.Examples.Creates.{short_name-IsString}

-- The directory with its child 7, a file that is called as `short_name` says.
abbrev folder_live : Live
folder_live = record { inode = folder.parent; ops = some Ops.dir_ops; nlink = 2 }

abbrev kid : Kid
kid = record { ino = 7; live = called used short_name; len = 3 }

abbrev both : Cache
both k = if k == 1 then some folder_live else if k == 7 then some kid.live else none

kid-IsKid : IsKid linux both kid
unfolding copy
kid-IsKid = record {
  kept = refl;
  known = refl;
  fits = omega arith;
  inner = λ q h. ground arith;
  end = refl;
}

iterate-emits_example :
    iterate linux zeros enough
      (λ _ _. true)
      (λ ctx. (record ctx { pos = 2 }, true))
      (treeless second folder.dev folder.free both)
      1
      (record { pos = 0; emitted = [] })
    ≡ ok (
      none,
      treeless second folder.dev folder.free both,
      emit_all (λ _ _. true) (record { pos = 2; emitted = [] }) (kid ∷ []),
    )
unfolding length
iterate-emits_example =
    iterate-emits linux zeros enough (λ _ _. true) (treeless second folder.dev folder.free both)
      (λ ctx. (record ctx { pos = 2 }, true)) 1 folder_live ((7 ∷ []) ∷ []) (kid ∷ [])
      (record { pos = 0; emitted = [] }) refl folder-IsFolder refl (omega arith) (kid-IsKid, tt)
      refl (omega arith)

lookup-FirstCalled_example :
    (NoneCalled short_name ((7, kid.live) ∷ [])
      × (lookup linux zeros enough (treeless second folder.dev folder.free both) 1 short_name.text
          ≡ ok (treeless second folder.dev folder.free both, none)))
    ⊎ ((first : FirstCalled short_name ((7, kid.live) ∷ [])) × (lookup linux zeros enough
            (treeless second folder.dev folder.free both)
            1
            short_name.text
          ≡ ok (treeless second folder.dev folder.free both, some first.ino)))
unfolding length
lookup-FirstCalled_example =
    lookup-FirstCalled linux zeros enough (treeless second folder.dev folder.free both) short_name
      short_name-IsString 1 folder_live ((7 ∷ []) ∷ []) ((7, kid.live) ∷ []) refl folder-IsFolder
      ((refl, refl), tt)
