-- ===== src/Examples/Folders.antt =====
-- A directory with one child in block 2, and a second child for it.
use spfs.Base.{
  ◌<◌, ◌≤◌, ◌∙◌, sym, ℕ, ◌≡◌, ◌≢◌, refl, Bool, true, arith, some, none, List, [], ◌∷◌, ok, zero,
  suc, ◌+◌, ◌*◌, ◌%◌, if◌then◌else◌, ◌==◌, ltb, ap,
}
use spfs.Wire.{Bytes, store32, load32}
use spfs.Dir.{Dir, dir_magic, s_isdir, add_child, for_all_children}
use spfs.Dir.Entries.{Entries, length, Entries-store32}
use mathlib.Core.Path.{subst}
use spfs.Dir.Full.{add_child-full}
use spfs.Dir.Visits.{IsDirectory, visit_all}
use spfs.Dir.Chains.{IsFolder, IsChain, blocks_of, children_of, for_all_children-chain}
use spfs.FreeList.{free_alloc}
use spfs.Dir.First.{IsEmpty, IsOpenable, add_children, for_all_children-add_children}
use spfs.Dir.Appends.{add_child-IsDirectory}

pub folder_bytes : Bytes
folder_bytes = store32 (store32 (store32 (λ _. 0) 0 0xDEADBEEF) 8 1) 12 7

abbrev pub folder : Dir
folder = record {
  dev = record { block_size = 512; readable = λ _. true; blocks = λ _. folder_bytes };
  free = record { blocks = 0; root = [] };
  parent = record {
    i_ino = 1;
    i_mode = 0x41ED;
    gid = 0;
    uid = 0;
    i_atime = record { tv_sec = 0; tv_nsec = 0 };
    i_mtime = record { tv_sec = 0; tv_nsec = 0 };
    i_ctime = record { tv_sec = 0; tv_nsec = 0 };
    capacity = 1;
    start = 2;
    name = λ _. 0;
  };
}

pub folder-IsDirectory : IsDirectory folder (7 ∷ [])
unfolding s_isdir load32 folder_bytes store32 Entries length
folder-IsDirectory = record {
  is_dir = refl;
  start = omega arith;
  readable = refl;
  block = record {
    magic = refl;
    last = refl;
    count = refl;
    entries = (refl, omega arith, refl, λ q h. ground arith);
    room = omega arith;
  };
}

pub folder-IsFolder : IsFolder folder 4 2 ((7 ∷ []) ∷ []) (7 ∷ [])
unfolding IsChain blocks_of children_of s_isdir folder_bytes load32 store32 Entries length
folder-IsFolder = record {
  is_dir = refl;
  chain = (
    record {
      there = omega arith;
      readable = refl;
      magic = refl;
      count = refl;
      entries = (refl, omega arith, refl, λ q h. ground arith);
      room = omega arith;
      enough = omega arith;
    },
    refl,
  );
  enough = omega arith;
  all = refl;
}

-- The callback collects what it is given, the last first.
abbrev collect : List ℕ → ℕ → List ℕ × Bool
collect seen x = (x ∷ seen, true)

-- A directory with a child in block 2, and two in block 3.
other_bytes : Bytes
other_bytes = store32 (store32 (store32 (store32 (λ _. 0) 0 0xDEADBEEF) 8 2) 12 8) 20 9

long_bytes : Bytes
long_bytes = store32 (store32 (store32 (store32 (λ _. 0) 0 0xDEADBEEF) 4 3) 8 1) 12 7

abbrev long_folder : Dir
long_folder = record folder {
  dev = record folder.dev { blocks = λ n. if n == 2 then long_bytes else other_bytes };
}

abbrev long_children : List (List ℕ)
long_children = (7 ∷ []) ∷ (8 ∷ 9 ∷ []) ∷ []

long_folder-IsChain : IsChain long_folder.dev 4 2 long_children
unfolding IsChain long_bytes other_bytes load32 store32 Entries length
long_folder-IsChain = (
  record {
    there = omega arith;
    readable = refl;
    magic = refl;
    count = refl;
    entries = (refl, omega arith, refl, λ q h. ground arith);
    room = omega arith;
    enough = omega arith;
  },
  (
    record {
      there = omega arith;
      readable = refl;
      magic = refl;
      count = refl;
      entries = (refl, omega arith, refl, (refl, omega arith, refl, λ q h. ground arith));
      room = omega arith;
      enough = omega arith;
    },
    refl,
  ),
)

for_all_children-chain_example :
    for_all_children some collect 4 3 long_folder []
    ≡ ok ((visit_all some collect (7 ∷ 8 ∷ 9 ∷ []) []).0, none)
unfolding children_of blocks_of s_isdir
for_all_children-chain_example =
    for_all_children-chain some collect long_children 4 3 long_folder [] refl long_folder-IsChain
      (omega arith)

add_child-IsDirectory_example :
    (dir' : Dir) × (add_child 1 folder 9 ≡ ok (none, dir'))
    × IsDirectory dir' (7 ∷ 9 ∷ [])
    × (dir'.free ≡ folder.free)
    × ((n : ℕ) → n ≢ 2 → dir'.dev.blocks n ≡ folder.dev.blocks n)
unfolding length
add_child-IsDirectory_example =
    add_child-IsDirectory 0 folder (7 ∷ []) 9 folder-IsDirectory (omega arith) (omega arith)
      (omega arith)

-- An empty directory, and a list of free blocks that grants block 4.
abbrev empty_folder : Dir
empty_folder = record {
  dev = record { block_size = 512; readable = λ _. true; blocks = λ _ _. 0 };
  free = record { blocks = 3; root = record { start = 2; blocks = 3 } ∷ [] };
  parent = record folder.parent { start = 0 };
}

empty_folder-IsEmpty : IsEmpty empty_folder 4
unfolding s_isdir free_alloc
empty_folder-IsEmpty = record {
  openable = record {
    is_dir = refl;
    granted = refl;
    page_ne = omega arith;
    readable = refl;
    clear = λ q h. refl;
    room = omega arith;
  };
  start = refl;
}

for_all_children-add_children_example :
    (dir' : Dir) × (add_children 1 empty_folder (5 ∷ 7 ∷ 9 ∷ []) ≡ ok (none, dir'))
    × (for_all_children some collect 6 2 dir' []
        ≡ ok ((visit_all some collect (5 ∷ 7 ∷ 9 ∷ []) []).0, none))
unfolding length
for_all_children-add_children_example =
    for_all_children-add_children some collect 0 6 empty_folder 4 5 (7 ∷ 9 ∷ []) []
      empty_folder-IsEmpty (omega arith) (omega arith) (omega arith) (omega arith)

-- A block with 100 children, each of them 7, and a device with it in block 2.
pub crowd : Bytes
crowd q = if ltb q 12 then 0 else if ltb q 812 then (if q % 8 == 7 then 7 else 0) else 0

pub crowd_block : Bytes
crowd_block = store32 (store32 crowd 0 0xDEADBEEF) 8 100

abbrev crowded : Dir
crowded = record {
  dev = record {
    block_size = 1024;
    readable = λ _. true;
    blocks = λ n. if n == 2 then crowd_block else λ _. 0;
  };
  free = record { blocks = 3; root = record { start = 4; blocks = 3 } ∷ [] };
  parent = record folder.parent { capacity = 100 };
}

sevens : ℕ → List ℕ
sevens zero = []
sevens (suc n) = 7 ∷ sevens n

length-sevens : (n : ℕ) → length (sevens n) ≡ n
unfolding length sevens
length-sevens zero = refl
length-sevens (suc n) = ap suc (length-sevens n)

crowd-child : (q : ℕ) → 12 ≤ q → q < 812 → q % 8 ≡ 7 → crowd q ≡ 7
unfolding crowd
crowd-child q h k e = ground arith

crowd-gap : (q : ℕ) → q % 8 ≢ 7 → crowd q ≡ 0
unfolding crowd
crowd-gap q e = ground arith

crowd-end : (q : ℕ) → 812 ≤ q → crowd q ≡ 0
unfolding crowd
crowd-end q h = ground arith

crowd-Entries : (n i : ℕ) → n + i ≡ 100 → Entries crowd (12 + i * 8) (sevens n)
unfolding Entries sevens load32
crowd-Entries zero i e = λ q h. crowd-end q (omega arith)
crowd-Entries (suc n) i e = (
  rw (
    crowd-gap (12 + i * 8) (omega arith),
    crowd-gap (12 + i * 8 + 1) (omega arith),
    crowd-gap (12 + i * 8 + 2) (omega arith),
    crowd-child (12 + i * 8 + 3) (omega arith) (omega arith) (omega arith),
  ),
  omega arith,
  rw (
    crowd-gap (12 + i * 8 + 4) (omega arith),
    crowd-gap (12 + i * 8 + 4 + 1) (omega arith),
    crowd-gap (12 + i * 8 + 4 + 2) (omega arith),
    crowd-gap (12 + i * 8 + 4 + 3) (omega arith),
  ),
  subst (λ p. Entries crowd p (sevens n)) (omega arith) (crowd-Entries n (i + 1) (omega arith)),
)

crowd_header :
    (load32 crowd_block 0 ≡ dir_magic) × (load32 crowd_block 4 ≡ 0) × (load32 crowd_block 8 ≡ 100)
unfolding load32 store32 crowd crowd_block
crowd_header = (refl, refl, refl)

crowded-IsDirectory : IsDirectory crowded (sevens 100)
unfolding s_isdir crowd_block
crowded-IsDirectory = record {
  is_dir = refl;
  start = omega arith;
  readable = refl;
  block = record {
    magic = crowd_header.0;
    last = crowd_header.1;
    count = crowd_header.2 ∙ sym (length-sevens 100);
    entries = Entries-store32 (sevens 100) (store32 crowd 0 0xDEADBEEF) 12 8 100 (omega arith) (
        Entries-store32 (sevens 100) crowd 12 0 0xDEADBEEF (omega arith)
          (crowd-Entries 100 0 refl));
    room = omega (arith, length-sevens 100);
  };
}

crowded-IsOpenable : IsOpenable crowded 6
unfolding s_isdir free_alloc
crowded-IsOpenable = record {
  is_dir = refl;
  granted = refl;
  page_ne = omega arith;
  readable = refl;
  clear = λ q h. refl;
  room = omega arith;
}

add_child-full_example :
    (dir' : Dir) × (add_child 2 crowded 9 ≡ ok (none, dir'))
    × (for_all_children some collect 2 2 dir' []
        ≡ ok ((visit_all some collect (9 ∷ []) []).0, none))
    × (dir'.dev.blocks 2 ≡ crowd_block)
add_child-full_example =
    add_child-full some collect 0 2 crowded 6 (sevens 100) 9 [] crowded-IsDirectory
      (length-sevens 100) crowded-IsOpenable (omega arith) (omega arith) (omega arith)
