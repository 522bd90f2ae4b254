-- ===== src/Examples/Reads.antt =====
-- A file of nine bytes in two extents, on a device with blocks of 20 bytes: six bytes in the
-- blocks 5 and 6, and three in block 8.
use spfs.Base.{
  Returns, [], ℕ, false, ◌+◌, ◌-◌, ◌<◌, ◌≤◌, ◌≡◌, refl, true, ltb, ◌==◌, if◌then◌else◌, arith, ok,
}
use spfs.Wire.{Bytes, store32, load32}
use spfs.Device.{Device}
use spfs.Extent.{file_magic, count, minus}
use spfs.Inode.{eio}
use spfs.Extent.Headers.{header_at}
use spfs.Extent.Rounds.{flat}
use spfs.File.{OpenFile, read, write, s_isreg}
use spfs.File.Whole.{IsFile, read-IsFile}
use spfs.File.Appended.{with_new}
use spfs.File.Append.{write-IsFile}
use spfs.Icache.{Vfs}
use spfs.Mount.Fresh.{treeless}
use spfs.Mkfs.Mount.{fresh_free}
use spfs.Vfs.{lookup, iterate}
use spfs.System.Untouched.{lookup-iterate-read_tree}
use spfs.Examples.Creates.{linux, enough, short_name, root_only, second, clear_device}
use spfs.Examples.Mounts.{zeros}
use spfs.Examples.Files.{file, fuel}

head : (next length : ℕ) → Bytes
head next length =
    store32 (store32 (store32 (store32 (λ q. 100 + q) 0 file_magic) 4 next) 8 2) 12 length

abbrev dev : Device
dev = record {
  block_size = 20;
  readable = λ _. true;
  blocks = λ n. if n == 5 then head 8 6 else if n == 8 then head 0 3 else λ q. q;
}

abbrev content : Bytes
content k = if ltb k 6 then flat dev 5 (16 + k) else flat dev 8 (16 + (k - 6))

abbrev nine_bytes : OpenFile
nine_bytes = let empty = file 9 in record empty { tree = record empty.tree { dev = dev } }

nine_bytes-IsFile : IsFile dev 2 2 5 9 content
unfolding IsFile head store32 load32 header_at
nine_bytes-IsFile = (
  record {
    there = omega arith;
    magic = refl;
    part = omega arith;
    fits = omega arith;
    readable = λ p h. refl;
    content = λ k h. ground arith;
  },
  (
    record {
      there = omega arith;
      magic = refl;
      part = omega arith;
      fits = omega arith;
      readable = λ p h. refl;
      content = λ k h. ground arith;
    },
    (refl, refl),
  ),
)

abbrev empty_system : Vfs
empty_system = treeless second clear_device (fresh_free 8) root_only

read-IsFile_example :
    (user' : Bytes) × (read 2 3 nine_bytes zeros 100 10 2 ≡ ok (count 7, 9, user', nine_bytes))
    × ((k : ℕ) → k < 7 → user' (100 + k) ≡ content (2 + k))
    × ((k : ℕ) → k < 100 → user' k ≡ zeros k)
    × ((k : ℕ) → 107 ≤ k → user' k ≡ zeros k)
unfolding s_isreg
read-IsFile_example =
    read-IsFile 2 2 3 nine_bytes 9 content zeros 100 10 2 refl refl (omega arith) (omega arith)
      (omega arith) (omega arith) (omega arith) nine_bytes-IsFile

-- A file of three bytes in block 8, with room for one more.
abbrev three_bytes : OpenFile
three_bytes =
    let empty = file 3 in
    record empty {
      tree = record empty.tree { dev = dev };
      inode = record empty.inode { start = 8 };
    }

abbrev last_bytes : Bytes
last_bytes k = flat dev 8 (16 + k)

three_bytes-IsFile : IsFile dev 3 1 8 3 last_bytes
unfolding IsFile head store32 load32 header_at
three_bytes-IsFile = (
  record {
    there = omega arith;
    magic = refl;
    part = omega arith;
    fits = omega arith;
    readable = λ p h. refl;
    content = λ k h. refl;
  },
  (refl, refl),
)

write-IsFile_example :
    (file' : OpenFile) × (write zeros fuel false three_bytes (λ k. k) 7 1 9
      ≡ ok (minus eio, 3, file'))
    × (file'.locked ≡ true)
    × (file'.inode ≡ three_bytes.inode)
    × (file'.i_size ≡ three_bytes.i_size)
    × IsFile file'.tree.dev 3 1 8 4 (with_new last_bytes 3 (λ k. k) 7)
unfolding s_isreg
write-IsFile_example =
    write-IsFile zeros fuel false three_bytes last_bytes (λ k. k) 7 1 9 2 1 refl refl (omega arith)
      (omega arith) (omega arith) (omega arith) refl refl (omega arith) three_bytes-IsFile

-- The root of a file system in which nothing is, and the file of nine bytes.
lookup-iterate-read_tree_example :
    Returns
      (λ out. out.0.tree ≡ empty_system.tree)
      (lookup linux zeros enough empty_system 1 short_name.text)
    × Returns
        (λ out. out.1.tree ≡ empty_system.tree)
        (iterate linux zeros enough
          (λ _ _. true)
          (λ ctx. (ctx, true))
          empty_system
          1
          (record { pos = 2; emitted = [] }))
    × Returns (λ out. out.3.tree ≡ nine_bytes.tree) (read 2 3 nine_bytes zeros 100 10 2)
lookup-iterate-read_tree_example =
    lookup-iterate-read_tree linux zeros enough empty_system 1 short_name.text (λ _ _. true)
      (λ ctx. (ctx, true)) (record { pos = 2; emitted = [] }) 2 3 nine_bytes zeros 100 10 2
