-- ===== src/Examples/Disks.antt =====
-- The super block, `mkfs.spfs`, `fsck.spfs` and the blocks of inodes.
use spfs.Base.{
  ℕ, ◌+◌, ◌^◌, ◌≤◌, ◌≡◌, ◌≢◌, ◌↔◌, refl, Bool, true, arith, Option, some, none, [], ◌∷◌, ok,
}
use spfs.Base.Int.{pos}
use spfs.Wire.{Bytes, Buffer, store32, load32}
use spfs.Device.{Device}
use spfs.Super.{Super, super_magic, super_block_init}
use spfs.Super.Laws.{decode, super_block_init_iff}
use spfs.Mkfs.{File, SuperWire}
use spfs.Mkfs
use spfs.Mkfs.Image.{image}
use spfs.Mkfs.Mount.{fresh_super}
use spfs.Fsck
use spfs.Fsck.Image.{fsck-mkfs}
use spfs.Fsck.Image
use spfs.Inode.{Inode, Time, parse, make, btree_magic}
use spfs.Inode.Roundtrip.{IsStored, parse-make, decoded}
use spfs.Tree.{Callback, lookup_cb, visit_entry}
use spfs.Tree.Visit.{visit-visit}

super_bytes : Bytes
super_bytes = store32 (store32 (store32 (λ _. 0) 0 super_magic) 4 1) 8 4096

super_disk : Device
super_disk = record { block_size = 512; readable = λ _. true; blocks = λ _. super_bytes }

abbrev super_of : Super
super_of = record {
  magic = super_magic;
  version = 1;
  block_size = 4096;
  id = 0;
  root_id = 0;
  btree_offset = 0;
  free_list_offset = 0;
}

super_block_init_iff_example : (super_block_init super_disk 0 ≡ ok super_of) ↔ (
    (super_disk.readable 0 ≡ true)
    × (super_of ≡ decode (record { b_size = super_disk.block_size; b_data = super_disk.blocks 0 }))
    × (super_magic ≡ super_magic)
    × (512 ≤ 4096))
unfolding super_disk
super_block_init_iff_example = super_block_init_iff super_disk 0 super_of (omega arith)

super_accepted : super_block_init super_disk 0 ≡ ok super_of
unfolding super_block_init super_disk super_bytes store32 load32 spfs.Device.sb_bread
    spfs.Wire.read_u32 spfs.Wire.read_ino spfs.Wire.read_sector
super_accepted = refl

-- A device of ten blocks of 512 bytes that takes and gives whatever it is asked.
abbrev takes : File → ℕ → Option ℕ
takes file n = some n

abbrev holds_still : File → Bool
holds_still file = true

abbrev zeros : Bytes
zeros = λ _. 0

abbrev blank : File
blank = record { offset = 0; content = zeros }

abbrev formatted : File
formatted =
    image takes (λ _ _. refl) holds_still (λ _. refl) zeros blank refl 512 5120 (omega arith)
      (omega arith) (omega arith)

abbrev nowhere : SuperWire
nowhere = record {
  magic = 0;
  version = 0;
  block_size = 0;
  dummy = 0;
  id = 0;
  root_id = 0;
  btree_offset = 0;
  free_list_offset = 0;
  blocks = 0;
}

fsck-mkfs_example :
    (Mkfs.run takes holds_still zeros (some (record { st_blksize = 512; st_size = pos 5120 })) blank
      ≡ ok formatted)
    × (Fsck.run takes (λ _ _. true) 1 formatted nowhere
        ≡ ok (Image.fresh_super 512 nowhere, (record { start = 2; blocks = 8 } ∷ []) ∷ []))
fsck-mkfs_example =
    fsck-mkfs takes (λ _ _. refl) holds_still (λ _. refl) zeros blank refl 512 5120 (omega arith)
      (omega arith) (omega arith) takes (λ _. refl) (λ _ _. true) (λ _ _. refl) 0 nowhere refl

abbrev at_time : ℕ → Time
at_time s = record { tv_sec = s; tv_nsec = 5 }

-- An inode with the name "a", and a number of more than 32 bits.
abbrev inode : Inode
inode = record {
  i_ino = 2 ^ 32 + 7;
  i_mode = 0o100644;
  gid = 1000;
  uid = 1000;
  i_atime = at_time 10;
  i_mtime = at_time 20;
  i_ctime = at_time 30;
  capacity = 0;
  start = 0;
  name = store32 (λ _. 0) 0 0x61000000;
}

abbrev block : Buffer
block = record { b_size = 512; b_data = zeros }

parse-make_example :
    (bh' : Buffer) × (out : Inode) × (make (λ _. 0x7f) block inode ≡ ok bh')
    × (parse bh' ≡ ok out)
    × IsStored (λ _. 0x7f) inode out
    × (bh'.b_size ≡ 512)
    × ((q : ℕ) → 294 ≤ q → bh'.b_data q ≡ 0)
parse-make_example = parse-make (λ _. 0x7f) block inode (omega arith)

-- A device whose every block holds an inode of zeros.
inode_bytes : Bytes
inode_bytes = store32 (λ _. 0) 0 btree_magic

abbrev inode_disk : Device
inode_disk = record { block_size = 512; readable = λ _. true; blocks = λ _. inode_bytes }

-- The callback of `spfs_ensure_capacity`, for one new start and capacity.
abbrev restart : Callback (ℕ × ℕ)
restart (start, capacity) cur =
    (true, (start, capacity), record cur { start = start; capacity = capacity })

inode_bytes-magic : load32 inode_bytes 0 ≡ btree_magic
unfolding inode_bytes load32 store32
inode_bytes-magic = refl

visit-visit_example :
    (dev' : Device) × (out : Inode) × (visit_entry zeros restart inode_disk 9 (40, 480)
      ≡ ok (dev', (40, 480)))
    × (visit_entry zeros lookup_cb dev' 9 none ≡ ok (dev', some out))
    × IsStored zeros (restart (40, 480) (decoded inode_bytes)).2 out
    × ((n : ℕ) → n ≢ 9 → dev'.blocks n ≡ inode_bytes)
visit-visit_example =
    visit-visit zeros restart inode_disk 9 (40, 480) (omega arith) refl (omega arith)
      inode_bytes-magic refl
