-- ===== src/Bnode.antt =====
-- btree.c, one node of the tree in its block, on a 64-bit little-endian machine: the length in 4
-- bytes, room for 100 entries of 16 bytes behind it, and 101 children of 8 bytes. A pointer into
-- the block is its distance from the start of the block, modulo 2 ^ 64; an access outside the
-- block is undefined in C, and `bug` here, as a BUG_ON is.
pub mod Search
pub mod Insert
use spfs.Base.{
  ℕ, zero, suc, ◌+◌, ◌-◌, ◌*◌, ◌/◌, ◌%◌, ◌^◌, Bool, not, ltb, ◌==◌, if◌then◌else◌, Option, none,
  some, Res, ok, err, bug, out_of_fuel, ◌>>=◌, bug_on,
}
use spfs.Wire.{Bytes, Buffer, load32, store32, copy}
use spfs.Inode.{Failure}

-- `bnode_capacity`
abbrev pub capacity : ℕ
capacity = 100

-- `bnode_parse`: where the parts of a node stand in its block.
abbrev pub entries : ℕ
entries = 4

abbrev pub children : ℕ
children = 4 + capacity * 16

-- `BUG_ON(!inside)` for an access to `len` bytes at a pointer.
abbrev pub inside {ℓ} : {A : Type ℓ} → Buffer → ℕ → ℕ → A → A → A
inside bh p len otherwise a = if ltb bh.b_size (p + len) then otherwise else a

-- `be32_to_cpu(f->id)` and `be32_to_cpu(f->offset)` of the entry at a pointer. Only the first four
-- bytes of each field count.
abbrev pub entry_id : Buffer → ℕ → ℕ
entry_id bh p = load32 bh.b_data p

abbrev pub entry_offset : Buffer → ℕ → ℕ
entry_offset bh p = load32 bh.b_data (p + 8)

-- `cpu_to_be32` into a field of eight bytes.
unfoldable pub store_be : Bytes → ℕ → ℕ → Bytes
store_be m p v = store32 (store32 m p v) (p + 4) 0

-- `bnode_make`: every byte is cleared.
unfoldable pub make : Buffer → Buffer
make bh = record bh { b_data = λ q. if ltb q bh.b_size then 0 else bh.b_data q }

unfoldable pub length : Buffer → Res Failure ℕ
length bh = inside bh 0 4 bug (bug_on (ltb capacity (load32 bh.b_data 0)) (ok (load32 bh.b_data 0)))

unfoldable pub set_length : Buffer → ℕ → Res Failure Buffer
set_length bh n =
    bug_on (ltb capacity n) (inside bh 0 4 bug (ok (record bh { b_data = store32 bh.b_data 0 n })))

unfoldable pub child_length : Buffer → Res Failure ℕ
unfolding length
child_length bh = do n ← length bh; ok (if n == 0 then 0 else n + 1)

unfoldable pub set_child : Buffer → ℕ → ℕ → Res Failure Buffer
unfolding store_be
set_child bh index child =
    inside bh (children + index * 8) 8 bug
      (ok (record bh { b_data = store_be bh.b_data (children + index * 8) child }))

-- `src` is the memory of the entry that is copied.
unfoldable pub set_entry : Buffer → ℕ → Bytes → Res Failure Buffer
set_entry bh index src =
    inside bh (entries + index * 16) 16 bug
      (ok (record bh { b_data = copy bh.b_data (entries + index * 16) src 16 }))

unfoldable pub get_child : Buffer → ℕ → Res Failure ℕ
unfolding length
get_child bh index = do
  n ← length bh
  bug_on (ltb n index)
      (inside bh (children + index * 8) 8 bug (ok (load32 bh.b_data (children + index * 8))))

-- `spfs_ptr_length`: a number of bytes.
unfoldable pub ptr_length : ℕ → ℕ → ℕ
ptr_length it end = (end + 2 ^ 64 - it) % 2 ^ 64

-- `it + n`, for a pointer to an entry.
unfoldable pub advance : ℕ → ℕ → ℕ
advance it n = (it + n * 16) % 2 ^ 64

-- The loop of `bnode_bin_find_gte`, on fuel. Each branch that jumps back is bound first.
unfoldable pub find_loop : ℕ → Buffer → (needle end it last : ℕ) → Res Failure (Option ℕ)
unfolding ptr_length advance
find_loop zero bh needle end it last = out_of_fuel
find_loop (suc fuel) bh needle end it last =
    let length = ptr_length it last in
    let mid = advance it (length / 2) in
    let left = find_loop fuel bh needle end it mid in
    let right = find_loop fuel bh needle end mid last in
    inside bh mid 8 bug (
      if ltb needle (entry_id bh mid)
      then (if length == 0 then ok (some mid) else left)
      else if entry_id bh mid == needle
      then ok (some mid)
      else if length == 1
      then (if advance it length == end then ok none else ok (some (advance it length)))
      else right)

-- `bnode_bin_find_gte`; `none` is NULL.
unfoldable pub find_gte : ℕ → Buffer → ℕ → Res Failure (Option ℕ)
unfolding advance
find_gte fuel bh needle = do
  n ← length bh
  bug_on (ltb capacity n) (
      if n == 0
      then ok none
      else find_loop fuel bh needle (advance entries n) entries (advance entries n))

-- `bnode_index_of`: the distance in bytes, or the capacity if it is larger.
unfoldable pub index_of : ℕ → ℕ
index_of p =
    if ltb p entries then capacity else if ltb capacity (p - entries) then capacity else p - entries

-- `memmove` of `len` bytes from `src` to `dest`.
unfoldable pub move : Buffer → (dest src len : ℕ) → Res Failure Buffer
move bh dest src len = inside bh dest len bug (
    inside bh src len bug
      (ok (record bh { b_data = copy bh.b_data dest (λ k. bh.b_data (src + k)) len })))

-- `bnode_bin_insert` behind its search: `gte` is what was found, or the first entry.
unfoldable pub insert_at : Buffer → (gte : ℕ) → Bytes → ℕ → Res Failure (Buffer × ℕ)
unfolding index_of advance
insert_at bh gte entry gt = bug_on (index_of gte == capacity) (do
  n ← length bh
  bh ← move bh (advance gte 1) gte ((n + 2 ^ 64 - index_of gte) * 16 % 2 ^ 64)
  bh ← set_entry bh (index_of gte) entry
  bh ← set_length bh (n + 1)
  bh ← set_child bh (n + 1) gt
  n' ← length bh
  bug_on (not (n' == n + 1)) (ok (bh, gte)))

-- What the search found: a BUG_ON if it is the needle itself.
unfoldable pub found_at : Buffer → ℕ → Option ℕ → Res Failure ℕ
found_at bh needle none = ok entries
found_at bh needle (some gte) = bug_on (entry_id bh gte == needle) (ok gte)

-- `bnode_bin_insert`: `entry` is the memory of the entry, and `gt` the child behind it. `none` is
-- the NULL of a full node; otherwise the node and the pointer to the entry.
unfoldable pub bin_insert : ℕ → Buffer → Bytes → ℕ → Res Failure (Option (Buffer × ℕ))
unfolding child_length found_at
bin_insert fuel bh entry gt = do
  n ← length bh
  if n == capacity then ok none else (do
    c ← child_length bh
    bh ← if c == 0 then set_child bh 0 0 else ok bh
    found ← find_gte fuel bh (load32 entry 0)
    gte ← found_at bh (load32 entry 0) found
    done ← insert_at bh gte entry gt
    ok (some done))
