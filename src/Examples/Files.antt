-- ===== src/Examples/Files.antt =====
-- Extents and files: a file with one extent in the blocks 5 and 6 of a device with ten blocks.
use spfs.Base.{
  ◌∷◌, ◌⊎◌, true, ℕ, ◌+◌, ◌*◌, ◌^◌, ◌≤◌, ◌≡◌, refl, false, ltb, arith, Res, ok, err, bug,
  out_of_fuel, [],
}
use spfs.Wire.{Bytes, Buffer, store32, load32}
use spfs.Device.{Device}
use spfs.Inode.{Failure, eio}
use spfs.Extent.{
  Header, Reader, Progress, Ssize, count, minus, min, file_magic, blocks_for, make_file_extent,
  parse_file_extent, write_file_extent, read_file_extent,
}
use spfs.Extent.Headers.{header_at}
use spfs.Extent.Counts.{blocks_for_least}
use spfs.Extent.Short.{read_file_extent_short}
use spfs.File.{OpenFile, Fuel, s_isreg, write, read}
use spfs.File.Reports.{write_count}

abbrev zeros : Bytes
zeros = λ _. 0

abbrev header : Header
header = record { next = 2 ^ 32 + 3; capacity = 2; length = 9 }

blocks_for_least_example :
    (n : ℕ) × (blocks_for 1100 512 1025 0 ≡ ok (0 + n))
    × (1025 ≤ n * 512)
    × ((k : ℕ) → 1025 ≤ k * 512 → n ≤ k)
blocks_for_least_example = blocks_for_least 1100 512 1025 0 (omega arith) (omega arith)

-- The header says two blocks and three bytes.
pub three_bytes : Bytes
three_bytes = store32 (store32 (store32 zeros 0 0xDEADBEEF) 8 2) 12 3

abbrev pub dev : Device
dev = record { block_size = 512; readable = λ n. ltb n 10; blocks = λ _. three_bytes }

three_bytes-magic : load32 three_bytes 0 ≡ file_magic
unfolding three_bytes store32 load32
three_bytes-magic = refl

three_bytes-length : (header_at three_bytes).length ≡ 3
unfolding three_bytes store32 load32 header_at
three_bytes-length = refl

abbrev no_header : Header
no_header = record { next = 0; capacity = 0; length = 0 }

abbrev one_byte : Reader
one_byte = record { user = zeros; in_buf = 100; in_len = 1; pos = 1 }

read_file_extent_short_example :
    (r' : Reader) × (read_file_extent 5 dev 5 one_byte
      ≡ ok (minus eio, (header_at three_bytes).next, r'))
read_file_extent_short_example =
    read_file_extent_short 4 5 dev 5 one_byte refl three_bytes-magic (omega arith)
      (omega (arith, three_bytes-length)) refl (omega arith)

abbrev pub file : (i_size : ℕ) → OpenFile
file i_size = record {
  tree = record { dev = dev; free = record { blocks = 0; root = [] }; start = 0 };
  block_size = 512;
  inode = record {
    i_ino = 2;
    i_mode = 0x81A4;
    gid = 0;
    uid = 0;
    i_atime = record { tv_sec = 0; tv_nsec = 0 };
    i_mtime = record { tv_sec = 0; tv_nsec = 0 };
    i_ctime = record { tv_sec = 0; tv_nsec = 0 };
    capacity = 1008;
    start = 5;
    name = zeros;
  };
  i_size = i_size;
  locked = false;
}

abbrev pub fuel : Fuel
fuel = record { counting = 1; probes = 1; levels = 1; blocks = 3; extents = 2 }

abbrev pub file_of : Res Failure (Ssize × ℕ × OpenFile) → OpenFile
file_of (ok (res, ppos, left)) = left
file_of (err e) = file 0
file_of bug = file 0
file_of out_of_fuel = file 0

-- A write of three bytes at position 600, which is in block 6: it reports 0.
abbrev far_write : Res Failure (Ssize × ℕ × OpenFile)
far_write = write zeros fuel false (file 600) (λ k. k) 7 3 600

far_write_runs : far_write ≡ ok (count 0, 600, file_of far_write)
unfolding write spfs.File.ensure_capacity spfs.File.write_grown spfs.File.write_extents
    spfs.File.write_from spfs.File.write_done write_file_extent parse_file_extent make_file_extent
    spfs.Extent.link_extra spfs.Extent.write_tail spfs.Extent.write_header spfs.Extent.do_write
    three_bytes store32 load32 spfs.Device.sb_bread spfs.Device.put spfs.Wire.copy
    spfs.Wire.read_u32 spfs.Wire.read_sector spfs.Wire.write_u32
far_write_runs = refl

write_count_example :
    (600 ≡ min 600 600)
    × ((file_of far_write).i_size ≡ 600)
    × ((◌≡◌ {A = ℕ} 0 0) ⊎ ((file_of far_write).locked ≡ true))
write_count_example =
    write_count zeros (λ k. k) fuel false (file 600) 7 3 600 (omega arith) 0 600 (file_of far_write)
      far_write_runs

-- A write of three bytes into an empty file: it fails.
abbrev pub first_write : Res Failure (Ssize × ℕ × OpenFile)
first_write = write zeros fuel false (file 0) (λ k. k) 7 3 0

pub first_write_runs : first_write ≡ ok (minus eio, 0, file_of first_write)
unfolding write spfs.File.ensure_capacity spfs.File.write_grown spfs.File.write_extents
    spfs.File.write_from spfs.File.write_done write_file_extent parse_file_extent make_file_extent
    spfs.Extent.link_extra spfs.Extent.write_tail spfs.Extent.write_header spfs.Extent.do_write
    three_bytes store32 load32 spfs.Device.sb_bread spfs.Device.put spfs.Wire.copy
    spfs.Wire.read_u32 spfs.Wire.read_sector spfs.Wire.write_u32
first_write_runs = refl

-- A write of three bytes into a file that is not in the tree: one byte is reported.
abbrev lost_write : Res Failure (Ssize × ℕ × OpenFile)
lost_write =
    let far = file 0 in
    write zeros (record fuel { counting = 2 }) false
      (record far {
        tree = record far.tree {
          free = record { blocks = 3; root = record { start = 7; blocks = 3 } ∷ [] };
        };
        inode = record far.inode { capacity = 0; start = 0 };
      })
      (λ k. k) 7 3 0

lost_write_runs : lost_write ≡ ok (count 1, 0, file_of lost_write)
unfolding write spfs.File.ensure_capacity spfs.File.write_grown spfs.File.as_ssize
    spfs.File.store_start spfs.File.grow spfs.File.calc_extra_blocks spfs.Extent.file_extent_alloc
    spfs.Extent.data_bytes spfs.Tree.modify_from make_file_extent spfs.FreeList.free_alloc store32
    spfs.Device.sb_bread spfs.Device.put spfs.Wire.copy spfs.Wire.write_u32 spfs.Extent.blocks_for
lost_write_runs = refl
