-- ===== src/Dir/Appends.antt =====
-- What `spfs_add_child` leaves in a directory of one block.
use mathlib.Core.Path.{subst}
use spfs.Base.{
  ℕ, zero, suc, ◌+◌, ◌*◌, ◌%◌, ◌^◌, ◌≤◌, ◌<◌, ◌≡◌, ◌≢◌, inl, refl, true, ==_false, sym, arith, List,
  [], ◌∷◌, ◌++◌, none, ok, ◌∙◌,
}
use spfs.Wire.{or_stop, Buffer, store32}
use spfs.Wire.Laws.{with_room-ok, write_u32-ok, load32-store32, load32-store32_ne}
use spfs.Device.{Device, sb_bread, put}
use spfs.Device.Laws.{put_self}
use spfs.Dir.{
  Dir, dir_magic, make_dir_block, write_child, kept, append, dir_is_full, add_from, add_child,
}
use spfs.Dir.Entries.{length, Entries, Entries-store32, Entries-append, length-snoc}
use spfs.Dir.Visits.{IsDirBlock, IsDirectory, parse_dir_block-IsDirBlock}

-- The header of a block, as three words.
abbrev pub headed : Buffer → (next children : ℕ) → Buffer
headed bh next children = record bh {
  b_data = store32 (store32 (store32 bh.b_data 0 dir_magic) 4 next) 8 children;
}

pub make_dir_block-ok :
    (bh : Buffer) (next children : ℕ)
    → 12 ≤ bh.b_size
    → make_dir_block bh 0 (record { next = next; children = children })
      ≡ ok (none, headed bh next children, 12)
unfolding make_dir_block or_stop
make_dir_block-ok bh next children h =
    rw
      (
        write_u32-ok bh 0 dir_magic (omega arith),
        write_u32-ok (record bh { b_data = store32 bh.b_data 0 dir_magic }) 4 next (omega arith),
        write_u32-ok (record bh { b_data = store32 (store32 bh.b_data 0 dir_magic) 4 next }) 8
            children (omega arith),
      )
      refl

write_child-ok :
    (bh : Buffer) (start idx child : ℕ)
    → start + idx * 8 + 8 ≤ bh.b_size
    → write_child bh start idx child
      ≡ ok (record bh { b_data = store32 bh.b_data (start + idx * 8) child })
unfolding write_child
write_child-ok bh start idx child h =
    rw
      (
        with_room-ok bh (start + idx * 8) 8 (start + idx * 8) h,
        write_u32-ok bh (start + idx * 8) child (omega arith),
      )
      refl

-- The block with one child more.
abbrev pub grown : Buffer → List ℕ → ℕ → Buffer
grown bh xs child =
    headed (record bh { b_data = store32 bh.b_data (12 + length xs * 8) child }) 0
      ((length xs + 1) % 2 ^ 32)

pub append-ok :
    (dir : Dir) (start : ℕ) (bh : Buffer) (xs : List ℕ) (child : ℕ)
    → 12 + length xs * 8 + 8 ≤ bh.b_size
    → append dir start bh 12 (record { next = 0; children = length xs }) child
      ≡ ok (record dir { dev = put dir.dev start (grown bh xs child) })
unfolding append kept
append-ok dir start bh xs child h =
    rw
      (
        write_child-ok bh 12 (length xs) child h,
        make_dir_block-ok (record bh { b_data = store32 bh.b_data (12 + length xs * 8) child }) 0
            ((length xs + 1) % 2 ^ 32) (omega arith),
      )
      refl

pub grown-IsDirBlock :
    (bh : Buffer) (xs : List ℕ) (child : ℕ)
    → 12 + length xs * 8 + 8 ≤ bh.b_size
    → length xs < 100
    → child % 2 ^ 32 ≢ 0
    → Entries bh.b_data 12 xs
    → IsDirBlock (grown bh xs child) (xs ++ child % 2 ^ 32 ∷ [])
grown-IsDirBlock bh xs child room few nz is = record {
  magic =
      load32-store32_ne _ 8 ((length xs + 1) % 2 ^ 32) 0 (inl (omega arith))
      ∙ load32-store32_ne _ 4 0 0 (inl (omega arith))
      ∙ load32-store32 (store32 bh.b_data (12 + length xs * 8) child) 0 dir_magic;
  last =
      load32-store32_ne _ 8 ((length xs + 1) % 2 ^ 32) 4 (inl (omega arith)) ∙ load32-store32 _ 4 0;
  count =
      omega (arith, load32-store32 _ 8 ((length xs + 1) % 2 ^ 32), length-snoc xs (child % 2 ^ 32));
  entries = Entries-store32 _ _ 12 8 _ (omega arith) (
      Entries-store32 _ _ 12 4 _ (omega arith) (
        Entries-store32 _ _ 12 0 _ (omega arith)
          (Entries-append xs bh.b_data 12 (12 + length xs * 8) child refl nz is)));
  room = omega (arith, length-snoc xs (child % 2 ^ 32));
}

-- The directory after a child was put in its first block.
abbrev pub added : Dir → List ℕ → ℕ → Dir
added dir xs child = record dir {
  dev = put dir.dev dir.parent.start (
      grown (record { b_size = dir.dev.block_size; b_data = dir.dev.blocks dir.parent.start }) xs
        child);
  parent = record dir.parent { capacity = (dir.parent.capacity + 1) % 2 ^ 32 };
}

pub put-IsDirectory :
    (dev : Device) (start : ℕ) (bh : Buffer) (xs : List ℕ)
    → bh.b_size ≡ dev.block_size
    → IsDirBlock bh xs
    → IsDirBlock (record { b_size = dev.block_size; b_data = (put dev start bh).blocks start }) xs
put-IsDirectory dev start bh xs e is =
    subst (λ m. IsDirBlock (record { b_size = dev.block_size; b_data = m }) xs)
      (sym (put_self dev start bh))
      (subst (λ k. IsDirBlock (record { b_size = k; b_data = bh.b_data }) xs) e is)

add_from-ok :
    (fuel : ℕ) (dir : Dir) (start : ℕ) (xs : List ℕ) (child : ℕ)
    → start ≢ 0
    → dir.dev.readable start ≡ true
    → IsDirBlock (record { b_size = dir.dev.block_size; b_data = dir.dev.blocks start }) xs
    → 12 + length xs * 8 + 8 ≤ dir.dev.block_size
    → length xs < 100
    → add_from (suc fuel) dir start child
      ≡ ok (
        none,
        record dir {
          dev = put dir.dev start (
              grown
                (record { b_size = dir.dev.block_size; b_data = dir.dev.blocks start })
                xs
                child);
        },
      )
unfolding add_from sb_bread dir_is_full
add_from-ok fuel dir zero xs child nz shown is room few = ground (arith, nz)
add_from-ok fuel dir (suc n) xs child nz shown is room few =
    rw
      (
        add_from,
        shown,
        parse_dir_block-IsDirBlock is,
        ==_false (length xs) 100 (omega arith),
        append-ok dir (suc n)
            (record { b_size = dir.dev.block_size; b_data = dir.dev.blocks (suc n) }) xs child room,
      )
      refl

pub add_child-added :
    (fuel : ℕ) (dir : Dir) (xs : List ℕ) (child : ℕ)
    → IsDirectory dir xs
    → 12 + length xs * 8 + 8 ≤ dir.dev.block_size
    → length xs < 100
    → add_child (suc fuel) dir child ≡ ok (none, added dir xs child)
unfolding add_child
add_child-added fuel dir xs child is room few =
    add_from-ok fuel
      (record dir { parent = record dir.parent { capacity = (dir.parent.capacity + 1) % 2 ^ 32 } })
      dir.parent.start xs child is.start is.readable is.block room few

pub added-IsDirectory :
    (dir : Dir) (xs : List ℕ) (child : ℕ)
    → IsDirectory dir xs
    → 12 + length xs * 8 + 8 ≤ dir.dev.block_size
    → length xs < 100
    → child % 2 ^ 32 ≢ 0
    → IsDirectory (added dir xs child) (xs ++ child % 2 ^ 32 ∷ [])
unfolding put
added-IsDirectory dir xs child is room few nz = record {
  is_dir = is.is_dir;
  start = is.start;
  readable = is.readable;
  block =
      put-IsDirectory dir.dev dir.parent.start
        (grown (record { b_size = dir.dev.block_size; b_data = dir.dev.blocks dir.parent.start }) xs
          child)
        (xs ++ child % 2 ^ 32 ∷ []) refl
        (grown-IsDirBlock
          (record { b_size = dir.dev.block_size; b_data = dir.dev.blocks dir.parent.start }) xs
          child room few nz is.block.entries);
}

-- A child that is not 0 in 32 bits is added to a directory of one block with room for it, and
-- fewer than 100 children: it comes behind the others, which stay, and the list of free blocks and
-- all other blocks of the device stay as they were.
pub add_child-IsDirectory :
    (fuel : ℕ) (dir : Dir) (xs : List ℕ) (child : ℕ)
    → IsDirectory dir xs
    → 12 + length xs * 8 + 8 ≤ dir.dev.block_size
    → length xs < 100
    → child % 2 ^ 32 ≢ 0
    → (dir' : Dir) × (add_child (suc fuel) dir child ≡ ok (none, dir'))
      × IsDirectory dir' (xs ++ child % 2 ^ 32 ∷ [])
      × (dir'.free ≡ dir.free)
      × ((n : ℕ) → n ≢ dir.parent.start → dir'.dev.blocks n ≡ dir.dev.blocks n)
unfolding put
add_child-IsDirectory fuel dir xs child is room few nz = (
  added dir xs child,
  add_child-added fuel dir xs child is room few,
  added-IsDirectory dir xs child is room few nz,
  refl,
  λ n h. rw (==_false n dir.parent.start h) refl,
)
