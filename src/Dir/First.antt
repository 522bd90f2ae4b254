-- ===== src/Dir/First.antt =====
-- The first child of an empty directory, and a directory that is filled child by child.
use mathlib.Core.List.{append-nil, append_assoc}
use spfs.Base.{
  ℕ, zero, suc, ◌+◌, ◌*◌, ◌%◌, ◌^◌, ◌≤◌, ◌≡◌, ◌≢◌, refl, Bool, true, ==_false, arith, List, [], ◌∷◌,
  ◌++◌, Option, none, some, Res, ok, ◌∙◌, ◌>>=◌,
}
use spfs.Wire.{Buffer, store32}
use spfs.Wire.Laws.{store32_ne}
use spfs.Device.{sb_bread, put}
use spfs.FreeList.{free_alloc}
use spfs.Inode.{Failure}
use spfs.Dir.{
  Dir, s_isdir, dir_magic, block_alloc, add_first, add_from, add_child, for_all_children,
}
use spfs.Dir.Entries.{length, length-snoc, Entries}
use spfs.Dir.Visits.{IsDirectory, visit_all, for_all_children-visits}
use spfs.Dir.Appends.{
  headed, grown, make_dir_block-ok, append-ok, grown-IsDirBlock, put-IsDirectory, added,
  add_child-added, added-IsDirectory,
}

-- A directory, and a block for its children: it can be allocated and read, and is clear behind its
-- header.
pub record IsOpenable (dir : Dir) (page : ℕ) : Type 0 where
  pub is_dir : s_isdir dir.parent.i_mode ≡ true
  pub granted : (free_alloc dir.free 1).1 ≡ page
  pub page_ne : page ≢ 0
  pub readable : dir.dev.readable page ≡ true
  pub clear : (q : ℕ) → 12 ≤ q → dir.dev.blocks page q ≡ 0
  pub room : 20 ≤ dir.dev.block_size

-- An empty directory, and a block for its children.
pub record IsEmpty (dir : Dir) (page : ℕ) : Type 0 where
  pub openable : IsOpenable dir page
  pub start : dir.parent.start ≡ 0

abbrev new_block : Dir → ℕ → Buffer
new_block dir page =
    headed (record { b_size = dir.dev.block_size; b_data = dir.dev.blocks page }) 0 0

-- The directory behind its first child.
abbrev pub opened : Dir → (page child : ℕ) → Dir
opened dir page child = record {
  dev = put dir.dev page (grown (new_block dir page) [] child);
  free = (free_alloc dir.free 1).0;
  parent = record dir.parent { start = page };
}

headed-clear :
    (bh : Buffer) (next children : ℕ)
    → ((q : ℕ) → 12 ≤ q → bh.b_data q ≡ 0)
    → Entries (headed bh next children).b_data 12 []
unfolding Entries
headed-clear bh next children clear = λ q h. ground (
  arith,
  store32_ne bh.b_data 0 dir_magic q,
  store32_ne (store32 bh.b_data 0 dir_magic) 4 next q,
  store32_ne (store32 (store32 bh.b_data 0 dir_magic) 4 next) 8 children q,
  clear q,
)

block_alloc-opened :
    (dir : Dir) (page : ℕ)
    → IsOpenable dir page
    → block_alloc dir
      ≡ ok (some (page, new_block dir page, 12), record dir { free = (free_alloc dir.free 1).0 })
unfolding block_alloc sb_bread
block_alloc-opened dir page is =
    rw
      (
        is.granted,
        ==_false page 0 is.page_ne,
        is.readable,
        make_dir_block-ok (record { b_size = dir.dev.block_size; b_data = dir.dev.blocks page }) 0 0
            (omega (arith, is.room)),
      )
      (rw (is.granted) refl)

pub add_first-opened :
    (dir : Dir) (page child : ℕ)
    → IsOpenable dir page
    → add_first dir child ≡ ok (none, opened dir page child)
unfolding add_first length
add_first-opened dir page child is =
    rw
      (
        block_alloc-opened dir page is,
        append-ok
            (record {
              dev = dir.dev;
              free = (free_alloc dir.free 1).0;
              parent = record dir.parent { start = page };
            })
            page (new_block dir page) [] child (omega (arith, is.room)),
      )
      refl

pub opened-IsDirectory :
    (dir : Dir) (page child : ℕ)
    → IsOpenable dir page
    → child % 2 ^ 32 ≢ 0
    → IsDirectory (opened dir page child) (child % 2 ^ 32 ∷ [])
unfolding put length
opened-IsDirectory dir page child is nz = record {
  is_dir = is.is_dir;
  start = is.page_ne;
  readable = is.readable;
  block =
      put-IsDirectory dir.dev page (grown (new_block dir page) [] child) (child % 2 ^ 32 ∷ []) refl
        (grown-IsDirBlock (new_block dir page) [] child (omega (arith, is.room)) (omega arith) nz (
          headed-clear (record { b_size = dir.dev.block_size; b_data = dir.dev.blocks page }) 0 0
            is.clear));
}

pub add_from_none :
    (fuel : ℕ) (dir : Dir) (start child : ℕ)
    → start ≡ 0
    → add_from (suc fuel) dir start child ≡ add_first dir child
unfolding add_from
add_from_none fuel dir zero child e = refl
add_from_none fuel dir (suc n) child e = absurd (omega arith)

-- `parent->capacity++`
abbrev pub counted : Dir → Dir
counted dir = record dir {
  parent = record dir.parent { capacity = (dir.parent.capacity + 1) % 2 ^ 32 };
}

pub counted-IsOpenable :
    (dir : Dir) (page : ℕ) → IsOpenable dir page → IsOpenable (counted dir) page
counted-IsOpenable dir page is = record {
  is_dir = is.is_dir;
  granted = is.granted;
  page_ne = is.page_ne;
  readable = is.readable;
  clear = is.clear;
  room = is.room;
}

pub add_child-opened :
    (fuel : ℕ) (dir : Dir) (page child : ℕ)
    → IsEmpty dir page
    → add_child (suc fuel) dir child ≡ ok (none, opened (counted dir) page child)
unfolding add_child
add_child-opened fuel dir page child is =
    add_from_none fuel (counted dir) dir.parent.start child is.start
    ∙ add_first-opened (counted dir) page child (counted-IsOpenable dir page is.openable)

-- The children `xs` are added one after the other, up to a failure.
pub add_children : (fuel : ℕ) → Dir → List ℕ → Res Failure (Option Failure × Dir)
add_children fuel dir [] = ok (none, dir)
add_children fuel dir (x ∷ xs) = do
  (res, dir) ← add_child fuel dir x
  elim res [ some e ↦ ok (some e, dir) | none ↦ add_children fuel dir xs ]

-- The numbers of the children as a directory keeps them.
abbrev pub cut : List ℕ → List ℕ
cut [] = []
cut (x ∷ xs) = x % 2 ^ 32 ∷ cut xs

-- No child that is 0 in 32 bits.
abbrev pub AllSome : List ℕ → Type 0
AllSome [] = Unit {0}
AllSome (x ∷ xs) = (x % 2 ^ 32 ≢ 0) × AllSome xs

add_children-IsDirectory :
    (fuel : ℕ) (dir : Dir) (ys xs : List ℕ)
    → IsDirectory dir ys
    → 12 + (length ys + length xs) * 8 ≤ dir.dev.block_size
    → length ys + length xs ≤ 100
    → AllSome xs
    → (dir' : Dir) × (add_children (suc fuel) dir xs ≡ ok (none, dir'))
      × IsDirectory dir' (ys ++ cut xs)
unfolding add_children length put
add_children-IsDirectory fuel dir ys [] is room few all = (dir, refl, rw (append-nil ys) is)
add_children-IsDirectory fuel dir ys (x ∷ xs) is room few (nz, all) =
    let is1 = added-IsDirectory dir ys x is (omega arith) (omega arith) nz in
    let len : length (ys ++ x % 2 ^ 32 ∷ []) ≡ length ys + 1 = length-snoc ys (x % 2 ^ 32) in
    let (dir2, later, is2) =
      add_children-IsDirectory fuel (added dir ys x) (ys ++ x % 2 ^ 32 ∷ []) xs is1 (omega arith)
        (omega arith) all in
    (
      dir2,
      rw (add_child-added fuel dir ys x is (omega arith) (omega arith)) later,
      rw (← append_assoc ys (x % 2 ^ 32 ∷ []) (cut xs)) is2,
    )

length-cut : (xs : List ℕ) → length (cut xs) ≡ length xs
unfolding length
length-cut [] = refl
length-cut (x ∷ xs) = omega (arith, length-cut xs)

-- An empty directory is given 1 to 100 children, none of them 0 in 32 bits, where a block for them
-- can be allocated and read, is clear behind its header, and has room for them all. Every one of
-- them is added, and `spfs_for_all_children` then visits just them, in the order in which they
-- were added, up to the first where the callback says false. The fuel is enough.
pub for_all_children-add_children :
    {I C : Type 0} (by_id : ℕ → Option I) (cb : C → I → C × Bool) (fuel words : ℕ) (dir : Dir)
    (page x : ℕ) (xs : List ℕ) (closure : C)
    → IsEmpty dir page
    → 12 + length (x ∷ xs) * 8 ≤ dir.dev.block_size
    → length (x ∷ xs) ≤ 100
    → AllSome (x ∷ xs)
    → length (x ∷ xs) * 2 ≤ words
    → (dir' : Dir) × (add_children (suc fuel) dir (x ∷ xs) ≡ ok (none, dir'))
      × (for_all_children by_id cb words (suc (suc fuel)) dir' closure
          ≡ ok ((visit_all by_id cb (cut (x ∷ xs)) closure).0, none))
unfolding add_children length put
for_all_children-add_children by_id cb fuel words dir page x xs closure is room few (nz, all)
      enough =
    let (dir', done, filled) =
      add_children-IsDirectory fuel (opened (counted dir) page x) (x % 2 ^ 32 ∷ []) xs
        (opened-IsDirectory (counted dir) page x (counted-IsOpenable dir page is.openable) nz)
        (omega arith) (omega arith) all in
    (
      dir',
      rw (add_child-opened fuel dir page x is) done,
      for_all_children-visits by_id cb words fuel dir' (cut (x ∷ xs)) closure filled
          (omega (arith, length-cut xs)),
    )
