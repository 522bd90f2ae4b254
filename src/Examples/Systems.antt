-- ===== src/Examples/Systems.antt =====
-- Calls on a mounted file system: a write that fails, and what a mount begins with.
use spfs.Base.{
  ℕ, ◌≡◌, ◌==◌, if◌then◌else◌, refl, arith, true, false, inl, inr, Bool, Bool-cases, none, some,
  out_of_fuel,
}
use mathlib.Core.Option.{some-injective, none-ne-some}
use mathlib.Core.Path.{subst}
use spfs.Inode.{eio}
use spfs.Extent.{minus}
use spfs.File.{read, write, s_isreg}
use spfs.Icache.{Live, Ops, Cache, Vfs, Kernel}
use spfs.Mkfs.Mount.{fresh_super}
use spfs.System.{System, opened, left_by, forgotten, Reach, forgets, here, next}
use spfs.System.Typed.{AllTyped, IsTyped}
use spfs.System.Locks.{write-Reach}
use spfs.Examples.Mounts.{zeros}
use spfs.Examples.Creates.{linux}
use spfs.Examples.Files.{file, fuel, file_of, first_write, first_write_runs}

-- The file of the other examples, in memory with number 2.
abbrev small_file : Live
small_file = record { inode = (file 0).inode; ops = some Ops.file_ops; nlink = 1 }

abbrev with_file : System
with_file = record {
  vfs = record {
    super = fresh_super 512;
    tree = (file 0).tree;
    cache = λ k. if k == 2 then some small_file else none;
  };
  sizes = λ k. 0;
  held = λ k. false;
}

with_file-AllTyped : AllTyped with_file.vfs.cache
unfolding s_isreg
with_file-AllTyped n live there = elim (Bool-cases (n == 2)) [
  | inl e ↦ subst IsTyped (some-injective small_file live (rw e at there)) (inl (refl, refl))
  | inr e ↦ absurd (none-ne-some live (rw e at there))
]

abbrev only_two : ℕ → Bool
only_two k = k == 2

-- Another inode leaves the memory.
later :
    Reach linux zeros only_two
      (left_by with_file 2 small_file (file_of first_write))
      (forgotten (left_by with_file 2 small_file (file_of first_write)) 9 true 0)
later = next here (forgets 9 true 0 refl)

abbrev after_write : Live
after_write = record small_file { inode = (file_of first_write).inode }

abbrev last : System
last = forgotten (left_by with_file 2 small_file (file_of first_write)) 9 true 0

still_there : last.vfs.cache 2 ≡ some after_write
unfolding forgotten left_by spfs.Icache.keep
still_there = refl

write-Reach_example :
    (read 3 2 (opened last 2 after_write) zeros 100 3 0 ≡ out_of_fuel)
    × (write zeros fuel false (opened last 2 after_write) zeros 100 3 0 ≡ out_of_fuel)
write-Reach_example =
    write-Reach linux zeros only_two 2 refl with_file small_file fuel (λ k. k) 7 3 0 (minus eio) 0
      (file_of first_write) with_file-AllTyped refl refl (omega arith) (λ e. cc) first_write_runs
      last later after_write still_there refl 3 2 fuel zeros 100 3 0 (omega arith)
