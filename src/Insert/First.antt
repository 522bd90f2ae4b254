-- ===== src/Insert/First.antt =====
-- The first insertion into a tree.
use spfs.Base.{ℕ, ◌%◌, ◌^◌, ◌≤◌, ◌≡◌, ◌≢◌, refl, true, arith, ==_false, none, ok, err}
use spfs.Wire.{Bytes, Buffer, load32, load64, store32}
use spfs.Device.{Device, sb_bread, put}
use spfs.FreeList.{FreeList, free_alloc}
use spfs.Super
use spfs.Super.{super_magic, super_block_init}
use spfs.Super.Laws.{read_super_block-decode, decode}
use spfs.Inode.{Inode}
use spfs.Inode.Roundtrip.{make-encoded, encoded}
use spfs.Bnode
use spfs.Bnode.{store_be, set_child, capacity}
use spfs.Bnode.Search.{length-ok}
use spfs.Bnode.Insert.{IsSingle, bin_insert_first, set_child-ok}
use spfs.Insert.{
  Bubble, Tree, Left, block, bubble_make, bubble_is_active, insert_leaf, alloc_root, insert_root,
  insert,
}

bubble_make-active :
    (id page gt : ℕ) → id % 2 ^ 32 ≢ 0 → bubble_is_active (bubble_make id page gt) ≡ true
unfolding bubble_is_active bubble_make store_be load64 load32 store32
bubble_make-active id page gt h = ground arith

-- The cleared block of a node, once its first child is set, has no entries.
abbrev first_child : Buffer → Buffer
first_child bh = record (Bnode.make bh) { b_data = store_be (Bnode.make bh).b_data 1604 0 }

pub make-length : (bh : Buffer) → 4 ≤ bh.b_size → load32 (Bnode.make bh).b_data 0 ≡ 0
unfolding Bnode.make load32
make-length bh h = ground arith

pub make-b_size : (bh : Buffer) → (Bnode.make bh).b_size ≡ bh.b_size
unfolding Bnode.make
make-b_size bh = refl

first_child-length : (bh : Buffer) → 4 ≤ bh.b_size → load32 (first_child bh).b_data 0 ≡ 0
unfolding Bnode.make store_be load32 store32
first_child-length bh h = ground arith

-- A tree with no node.
abbrev pub empty_tree : Device → FreeList → Tree
empty_tree dev free = record { dev = dev; free = free; start = 0 }

-- The new root when the tree had none: the node is made in block 0.
alloc_root_first :
    (probes : ℕ) (dev : Device) (free : FreeList) (bubble : Bubble)
    → (free_alloc free 1).1 ≢ 0
    → dev.readable 0 ≡ true
    → 1620 ≤ dev.block_size
    → (bh : Buffer) × (alloc_root probes (empty_tree dev free) bubble
        ≡ ok (
          none,
          record {
            dev = put dev 0 bh;
            free = (free_alloc free 1).0;
            start = (free_alloc free 1).1;
          },
        ))
      × IsSingle bh bubble.entry bubble.greater
unfolding alloc_root sb_bread
alloc_root_first probes dev free bubble ne shown room =
    let old : Buffer = block dev 0 in
    let size : (Bnode.make old).b_size ≡ dev.block_size = make-b_size old in
    let (bh, done, single, same) =
      bin_insert_first probes (first_child old) bubble.entry bubble.greater (omega arith)
        (first_child-length old (omega arith)) in
    (
      bh,
      rw (
        ==_false (free_alloc free 1).1 0 ne,
        shown,
        length-ok (Bnode.make old) 0 (omega arith) (make-length old (omega arith)) (omega arith),
        set_child-ok (Bnode.make old) 0 0 (omega arith),
        done,
        length-ok bh 1 (omega arith) single.one (omega arith),
      ),
      single,
    )

-- The tree behind the first insertion: the inode is in block `page`, the only entry is in block 0,
-- and the tree starts at block `root`, whose bytes are those of the device before. No other block
-- changes, and `rest` is free.
pub record IsCorrupted (dev : Device) (inode : Inode) (page root : ℕ) (rest : FreeList)
    (left : Left) : Type 0 where
  pub succeeded : left.res ≡ none
  pub located : left.out ≡ page
  pub started : left.tree.start ≡ root
  pub node : IsSingle (block left.tree.dev 0) (bubble_make inode.i_ino page 0).entry 0
  pub untouched : (q : ℕ) → left.tree.dev.blocks root q ≡ dev.blocks root q
  pub free : left.tree.free ≡ rest
  pub others : (n : ℕ) → n ≢ 0 → n ≢ page → left.tree.dev.blocks n ≡ dev.blocks n
  pub readable : left.tree.dev.readable ≡ dev.readable
  pub block_size : left.tree.dev.block_size ≡ dev.block_size
  pub unmountable :
      super_block_init (record left.tree.dev { block_size = 512 }) 0 ≡ err Super.Failure.einval

pub not_super :
    (dev : Device)
    → load32 (dev.blocks 0) 0 ≡ 1
    → dev.readable 0 ≡ true
    → super_block_init (record dev { block_size = 512 }) 0 ≡ err Super.Failure.einval
unfolding super_block_init sb_bread decode
not_super dev e shown = rw (
  shown,
  read_super_block-decode (record { b_size = 512; b_data = dev.blocks 0 }) (omega arith),
  e,
)

-- The first insertion into an empty tree succeeds if two blocks can be allocated, the device can
-- read the first of them and block 0, a node fits the block, and the inode number is not 0 in 32
-- bits. But it makes the new node in block 0, over the super block, and lets the tree start at a
-- block that it never writes: a later mount of the device is refused with -EINVAL.
pub insert_first :
    (frame : Bytes) (probes fuel : ℕ) (dev : Device) (free : FreeList) (inode : Inode)
    → (free_alloc free 1).1 ≢ 0
    → (free_alloc (free_alloc free 1).0 1).1 ≢ 0
    → (free_alloc (free_alloc free 1).0 1).1 ≢ (free_alloc free 1).1
    → dev.readable (free_alloc free 1).1 ≡ true
    → dev.readable 0 ≡ true
    → 1620 ≤ dev.block_size
    → inode.i_ino % 2 ^ 32 ≢ 0
    → (left : Left) × (insert frame probes fuel (empty_tree dev free) inode ≡ ok left)
      × IsCorrupted dev inode
          (free_alloc free 1).1
          (free_alloc (free_alloc free 1).0 1).1
          (free_alloc (free_alloc free 1).0 1).0
          left
unfolding insert insert_leaf insert_root put sb_bread
insert_first frame probes fuel dev free inode ne ne' apart shown shown' room id =
    let page = (free_alloc free 1).1 in
    let stored : Buffer = record {
      b_size = dev.block_size;
      b_data = encoded frame (dev.blocks page) inode;
    } in
    let dev' : Device = put dev page stored in
    let bubble : Bubble = bubble_make inode.i_ino page 0 in
    let (bh, done, single) =
      alloc_root_first probes dev' (free_alloc free 1).0 bubble ne' shown' room in
    (
      record {
        res = none;
        tree = record {
          dev = put dev' 0 bh;
          free = (free_alloc (free_alloc free 1).0 1).0;
          start = (free_alloc (free_alloc free 1).0 1).1;
        };
        bubble = bubble;
        out = page;
      },
      rw (
        ==_false page 0 ne,
        shown,
        make-encoded frame (block dev page) inode (omega arith),
        bubble_make-active inode.i_ino page 0 id,
        done,
      ),
      record {
        succeeded = refl;
        located = refl;
        started = refl;
        node = record {
          one = single.one;
          has_entry = single.has_entry;
          less_child = single.less_child;
          greater_child = single.greater_child;
        };
        untouched = λ q. rw (
          ==_false (free_alloc (free_alloc free 1).0 1).1 0 ne',
          ==_false (free_alloc (free_alloc free 1).0 1).1 page apart,
        );
        free = refl;
        others = λ n h k. rw (==_false n 0 h, ==_false n page k);
        readable = refl;
        block_size = refl;
        unmountable = not_super (put dev' 0 bh) single.one shown';
      },
    )
