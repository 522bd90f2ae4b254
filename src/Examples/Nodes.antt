-- ===== src/Examples/Nodes.antt =====
-- Nodes of the tree, their search, and insertions.
use spfs.Base.{ℕ, ◌+◌, ◌*◌, ◌≤◌, ◌≡◌, ◌⊎◌, refl, true, arith, none, some, [], ◌∷◌, ok, bug}
use spfs.Wire.{Bytes, Buffer, store32, load32}
use spfs.Device.{Device}
use spfs.FreeList.{FreeList, free_alloc}
use spfs.Inode.{Inode, Time, code}
use spfs.Bnode.{entries, entry_id, entry_offset, find_gte}
use spfs.Bnode.Search.{find_gte_misses, find_gte_clear}
use spfs.Tree.{lookup_cb, modify_from}
use spfs.Tree.Walk.{modify_clear}
use spfs.Insert.Fixup.{fixup_stops}
use spfs.Insert.{fixup, Left, Tree, block, clear_bubble, insert}
use spfs.Insert.First.{IsCorrupted, empty_tree, insert_first}
use spfs.Insert.Full.{insert_full}

-- A node with the one entry 7, whose inode is in block 3; every other byte is clear.
one_entry : Bytes
one_entry = store32 (store32 (store32 (λ _. 0) 0 1) 4 7) 12 3

abbrev node : Buffer
node = record { b_size = 4096; b_data = one_entry }

one_entry-length : load32 one_entry 0 ≡ 1
unfolding one_entry load32 store32
one_entry-length = refl

one_entry-clear : (q : ℕ) → 4 + 1 * 16 ≤ q → one_entry q ≡ 0
unfolding one_entry store32
one_entry-clear q h = ground arith

find_gte_misses_example :
    (find_gte 3 node 7 ≡ bug)
    ⊎ ((p : ℕ) × (find_gte 3 node 7 ≡ ok (some p))
        × (entry_id node p ≡ 7)
        × ((p ≡ entries + 8 * 1 * 16) ⊎ (p ≡ entries + 64 * 1 * 16))
        × (entries + 1 * 16 ≤ p))
find_gte_misses_example =
    find_gte_misses node 7 1 (omega arith) (omega arith) (omega arith) one_entry-length
      (omega arith) 0

-- The search for the one entry that the node has does not find it.
find_gte_clear_example : find_gte 3 node 7 ≡ bug
find_gte_clear_example =
    find_gte_clear 0 node 7 1 (omega arith) (omega arith) (omega arith) (omega arith)
      one_entry-length one_entry-clear (omega arith)

-- A device whose every block is that node.
abbrev disk : Device
disk = record { block_size = 4096; readable = λ _. true; blocks = λ _. one_entry }

abbrev two_blocks : FreeList
two_blocks = record { blocks = 8; root = record { start = 2; blocks = 8 } ∷ [] }

abbrev at_time : Time
at_time = record { tv_sec = 0; tv_nsec = 0 }

abbrev inode : Inode
inode = record {
  i_ino = 2;
  i_mode = 0o100644;
  gid = 0;
  uid = 0;
  i_atime = at_time;
  i_mtime = at_time;
  i_ctime = at_time;
  capacity = 0;
  start = 0;
  name = λ _. 0;
}

insert_first_example :
    (left : Left) × (insert (λ _. 0) 3 1 (empty_tree disk two_blocks) inode ≡ ok left)
    × IsCorrupted disk inode
        (free_alloc two_blocks 1).1
        (free_alloc (free_alloc two_blocks 1).0 1).1
        (free_alloc (free_alloc two_blocks 1).0 1).0
        left
insert_first_example =
    insert_first (λ _. 0) 3 1 disk two_blocks inode (unfold free_alloc in omega arith)
      (unfold free_alloc in omega arith) (unfold free_alloc in omega arith) refl refl (omega arith)
      (omega arith)

abbrev grown : Tree
grown = record { dev = disk; free = two_blocks; start = 5 }

insert_full_example :
    (insert (λ _. 0) 3 1 grown inode ≡ bug)
    ⊎ ((p : ℕ) × (entries + 1 * 16 ≤ p)
        × (entry_id (block disk 5) p ≡ 2)
        × (insert (λ _. 0) 3 1 grown inode
            ≡ ok (record {
              res = some (code 1);
              tree = grown;
              bubble = clear_bubble;
              out = entry_offset (block disk 5) p;
            })))
insert_full_example =
    insert_full (λ _. 0) 0 0 grown inode 1 (omega arith) refl (omega arith) (omega arith)
      one_entry-length (omega arith) (omega arith)

fixup_stops_example : fixup 3 grown 5 (record { entry = λ _. 9; greater = 5 }) ≡ bug
fixup_stops_example =
    fixup_stops 0 grown 5 1 (record { entry = λ _. 9; greater = 5 }) one_entry-length (omega arith)
      (omega arith) (omega arith) (omega arith) (λ h. absurd (omega arith)) refl

modify_clear_example : modify_from (λ _. 0) lookup_cb 3 1 disk 5 7 none ≡ bug
modify_clear_example =
    modify_clear (λ _. 0) lookup_cb 0 0 disk 4 7 none refl (omega arith) 1 (omega arith)
      one_entry-length (omega arith) (omega arith) one_entry-clear (omega arith)
