-- ===== src/System/Blocks.antt =====
-- What becomes of the free blocks of a file system, whatever is called.
use spfs.Base.{ℕ, Bool, ◌+◌, ◌≡◌, ap, ◌∙◌, List}
use mathlib.Core.Path.{subst}
use spfs.Wire.{Bytes}
use spfs.FreeList.Alloc.{IsValid, serve, granted_times, serve-holds}
use spfs.FreeList.Sum.{holds}
use spfs.FreeList.Served.{Served-refl}
use spfs.Icache.{Kernel}
use spfs.System.{System, Reach}
use spfs.System.Typed.{AllTyped}
use spfs.System.Sound.{Reach-IsSound}

module _ (kernel : Kernel) (frame : Bytes) (is_open : ℕ → Bool) where
  -- Whatever is called, from a state with a valid free list in which each inode in memory has the
  -- operations of its mode: the list stays valid, and it is what some allocations leave of the
  -- list at first. No call gives a block back, and each block is as often in the extents that are
  -- left and in the grants together as it was in the extents at first, so that a block is granted
  -- once at most where it was free once.
  pub Reach-serve :
      (s s' : System)
      → AllTyped s.vfs.cache
      → IsValid s.vfs.tree.free
      → Reach kernel frame is_open s s'
      → IsValid s'.vfs.tree.free
        × ((requests : List ℕ) × ((serve s.vfs.tree.free requests).0 ≡ s'.vfs.tree.free)
            × ((b : ℕ)
                → holds s.vfs.tree.free.root b
                  ≡ holds s'.vfs.tree.free.root b
                    + granted_times (serve s.vfs.tree.free requests).1 b))
  Reach-serve s s' all valid reached =
      let (all', taken) =
        Reach-IsSound s.vfs.tree.free kernel frame is_open s s' reached
          (all, Served-refl s.vfs.tree.free) in
      let (valid', split) = serve-holds s.vfs.tree.free taken.requests valid in
      (
        subst IsValid taken.served valid',
        (
          taken.requests,
          taken.served,
          λ b.
              split b
              ∙ ap
                  (λ free.
                    holds free.root b + granted_times (serve s.vfs.tree.free taken.requests).1 b)
                  taken.served,
        ),
      )
