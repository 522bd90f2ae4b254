-- ===== src/File/Reports.antt =====
-- What `spfs_write` reports of its work.
use spfs.Base.{
  ℕ, zero, suc, ◌≡◌, ◌≢◌, ◌⊎◌, inl, inr, refl, Bool, true, false, arith, ap, ◌∙◌, ◌>>=◌,
  >>=-succeeds, ok, out_of_fuel, none, some, Option,
}
use spfs.Wire.{Bytes}
use spfs.Inode.{Failure}
use spfs.Extent.{Progress, Ssize, count, minus, min}
use spfs.File.{
  OpenFile, Fuel, begun, write_from, write_extents, write_done, write_grown, write, read, s_isreg,
  ensure_capacity, store_start, grow,
}

-- A loop that ends with a count has counted nothing behind where it began.
write_from_count :
    (blocks fuel : ℕ) (user : Bytes) (block_size start written : ℕ) (s s' : Progress) (n : ℕ)
    → write_from blocks fuel user block_size start written s ≡ ok (count n, s')
    → n ≡ written
unfolding write_from
write_from_count blocks zero user block_size start written s s' n h = cc
write_from_count blocks (suc fuel) user block_size zero written s s' n h = ground arith
write_from_count blocks (suc fuel) user block_size (suc start) written s s' n h =
    grind (arith, write_from_count blocks fuel user block_size)

-- The growth of a file leaves its size, its lock and its mode alone.
store_start_keeps :
    (frame : Bytes) (fuel : Fuel) (file : OpenFile) (res : Option Failure) (file' : OpenFile)
    → store_start frame fuel file ≡ ok (res, file')
    → (file'.i_size ≡ file.i_size) × (file'.locked ≡ file.locked) × (file'.inode ≡ file.inode)
unfolding store_start
store_start_keeps frame fuel file res file' h = ground arith

ensure_capacity_keeps :
    (frame : Bytes) (fuel : Fuel) (file : OpenFile) (in_pos in_len : ℕ) (res : Option Failure)
    (extra : ℕ) (file' : OpenFile)
    → ensure_capacity frame fuel file in_pos in_len ≡ ok (res, extra, file')
    → (file'.i_size ≡ file.i_size)
      × (file'.locked ≡ file.locked)
      × (file'.inode.i_mode ≡ file.inode.i_mode)
unfolding ensure_capacity grow
ensure_capacity_keeps frame fuel file in_pos in_len res extra file' h =
    grind (arith, store_start_keeps frame fuel)

-- How a write ends behind its lock: position, size and mode stay, and the result is the count 0, or
-- the lock stays as it was.
abbrev Ends : OpenFile → ℕ → Ssize × ℕ × OpenFile → Type 0
Ends file ppos (res, ppos', file') =
    (ppos' ≡ ppos)
    × (file'.i_size ≡ file.i_size)
    × (file'.inode.i_mode ≡ file.inode.i_mode)
    × ((res ≡ count 0) ⊎ (file'.locked ≡ file.locked))

write_done-Ends :
    (file : OpenFile) (ppos : ℕ) (res : Ssize) (s : Progress) (out : Ssize × ℕ × OpenFile)
    → ((n : ℕ) → res ≡ count n → n ≡ 0)
    → write_done file ppos (res, s) ≡ ok out
    → Ends file ppos out
unfolding write_done
write_done-Ends file ppos (minus e) s (res, ppos', file') none_written h = ground arith
write_done-Ends file ppos (count n) s (res, ppos', file') none_written h =
    ground (arith, none_written n refl)

write_extents-Ends :
    (fuel : Fuel) (user : Bytes) (file : OpenFile) (in_buf in_len ppos extra : ℕ)
    (out : Ssize × ℕ × OpenFile)
    → write_extents fuel user file in_buf in_len ppos extra ≡ ok out
    → Ends file ppos out
unfolding write_extents
write_extents-Ends fuel user file in_buf in_len ppos extra out h =
    let ((res, s), end, loop) =
      >>=-succeeds
        (write_from fuel.blocks fuel.extents user file.block_size file.inode.start 0
          (begun file in_buf in_len ppos extra))
        (λ r. write_done (record file { tree = record file.tree { dev = r.1.dev } }) ppos r) h in
    write_done-Ends (record file { tree = record file.tree { dev = s.dev } }) ppos res s out
      (λ n e.
        write_from_count fuel.blocks fuel.extents user file.block_size file.inode.start 0
          (begun file in_buf in_len ppos extra) s n (loop ∙ ap (λ r. ok (r, s)) e))
      end

Ends-file :
    (file file' : OpenFile) (ppos : ℕ) (out : Ssize × ℕ × OpenFile)
    → file'.i_size ≡ file.i_size
    → file'.locked ≡ file.locked
    → file'.inode.i_mode ≡ file.inode.i_mode
    → Ends file' ppos out
    → Ends file ppos out
Ends-file file file' ppos (res, ppos', last) size lock mode (here, kept, same, inl nothing) =
    (here, kept ∙ size, same ∙ mode, inl nothing)
Ends-file file file' ppos (res, ppos', last) size lock mode (here, kept, same, inr held) =
    (here, kept ∙ size, same ∙ mode, inr (held ∙ lock))

write_grown-Ends :
    (fuel : Fuel) (user : Bytes) (file : OpenFile) (in_buf in_len ppos : ℕ) (res : Option Failure)
    (extra : ℕ) (file' : OpenFile) (out : Ssize × ℕ × OpenFile)
    → file'.i_size ≡ file.i_size
    → file'.locked ≡ file.locked
    → file'.inode.i_mode ≡ file.inode.i_mode
    → write_grown fuel user in_buf in_len ppos (res, extra, file') ≡ ok out
    → Ends file ppos out
unfolding write_grown
write_grown-Ends fuel user file in_buf in_len ppos none extra file' out size lock mode h =
    Ends-file file file' ppos out size lock mode
      (write_extents-Ends fuel user file' in_buf in_len ppos extra out h)
write_grown-Ends fuel user file in_buf in_len ppos (some e) extra file' (res, ppos', last) size lock
      mode h =
    ground arith

module _ (frame user : Bytes) (fuel : Fuel) (signal : Bool) (file : OpenFile)
    (in_buf in_len ppos : ℕ) (some_bytes : in_len ≢ 0) where
  -- Behind the lock.
  locked-Ends :
      (out : Ssize × ℕ × OpenFile)
      → (ensure_capacity frame fuel (record file { locked = true }) (min ppos file.i_size) in_len
          >>= write_grown fuel user in_buf in_len (min ppos file.i_size))
        ≡ ok out
      → Ends (record file { locked = true }) (min ppos file.i_size) out
  locked-Ends out h =
      let ((res, extra, file'), end, grown) =
        >>=-succeeds
          (ensure_capacity frame fuel (record file { locked = true }) (min ppos file.i_size) in_len)
          (write_grown fuel user in_buf in_len (min ppos file.i_size)) h in
      let (size, lock, mode) =
        ensure_capacity_keeps frame fuel (record file { locked = true }) (min ppos file.i_size)
          in_len res extra file' grown in
      write_grown-Ends fuel user (record file { locked = true }) in_buf in_len
        (min ppos file.i_size) res extra file' out size lock mode end

  -- Where a write of at least one byte returns a count, it has not gone on: the position is the
  -- old one, cut to the size of the file, and the size is as before. The count is 0, or the lock
  -- of the inode is kept, as where a positive code of `spfs_btree_modify` is returned.
  pub write_count :
      (n ppos' : ℕ) (file' : OpenFile)
      → write frame fuel signal file user in_buf in_len ppos ≡ ok (count n, ppos', file')
      → (ppos' ≡ min ppos file.i_size)
        × (file'.i_size ≡ file.i_size)
        × ((n ≡ 0) ⊎ (file'.locked ≡ true))
  unfolding write
  write_count n ppos' file' h = ground (arith, locked-Ends (count n, ppos', file'))

  -- A failure with no signal keeps the lock and the mode.
  pub write_failure :
      (res : Ssize) (ppos' : ℕ) (file' : OpenFile)
      → s_isreg file.inode.i_mode ≡ true
      → signal ≡ false
      → res ≢ count 0
      → write frame fuel signal file user in_buf in_len ppos ≡ ok (res, ppos', file')
      → (file'.locked ≡ true) × (file'.inode.i_mode ≡ file.inode.i_mode)
  unfolding write
  write_failure res ppos' file' regular no_signal failed h =
      ground (arith, locked-Ends (res, ppos', file'))

-- The mode stays in every write that returns.
pub write-i_mode :
    (frame user : Bytes) (fuel : Fuel) (signal : Bool) (file : OpenFile) (in_buf in_len ppos : ℕ)
    (res : Ssize) (ppos' : ℕ) (file' : OpenFile)
    → write frame fuel signal file user in_buf in_len ppos ≡ ok (res, ppos', file')
    → file'.inode.i_mode ≡ file.inode.i_mode
unfolding write
write-i_mode frame user fuel signal file in_buf zero ppos res ppos' file' h = ground arith
write-i_mode frame user fuel signal file in_buf (suc n) ppos res ppos' file' h =
    let ends = locked-Ends frame user fuel signal file in_buf (suc n) ppos (omega arith) in
    ground (arith, ends (res, ppos', file'))

-- Where the lock is held, a write that returns has not gone behind it.
pub write_locked :
    (frame user : Bytes) (fuel : Fuel) (signal : Bool) (file : OpenFile) (in_buf in_len ppos : ℕ)
    (res : Ssize) (ppos' : ℕ) (file' : OpenFile)
    → file.locked ≡ true
    → write frame fuel signal file user in_buf in_len ppos ≡ ok (res, ppos', file')
    → file'.locked ≡ true
unfolding write
write_locked frame user fuel signal file in_buf in_len ppos res ppos' file' held h = ground arith

-- A read leaves the inode alone, and does not open a lock that is held.
pub read_keeps :
    (blocks fuel : ℕ) (file : OpenFile) (user : Bytes) (in_buf in_len ppos : ℕ) (res : Ssize)
    (ppos' : ℕ) (user' : Bytes) (file' : OpenFile)
    → read blocks fuel file user in_buf in_len ppos ≡ ok (res, ppos', user', file')
    → (file'.inode ≡ file.inode) × ((file.locked ≡ true) → file'.locked ≡ true)
unfolding read
read_keeps blocks fuel file user in_buf in_len ppos res ppos' user' file' h =
    (ground arith, λ held. ground arith)

-- Where the lock is held, a read or a write of at least one byte to a regular file never returns,
-- unless a signal ends the wait of the write.
pub read_locked :
    (blocks fuel : ℕ) (file : OpenFile) (user : Bytes) (in_buf in_len ppos : ℕ)
    → s_isreg file.inode.i_mode ≡ true
    → file.locked ≡ true
    → in_len ≢ 0
    → read blocks fuel file user in_buf in_len ppos ≡ out_of_fuel
unfolding read
read_locked blocks fuel file user in_buf in_len ppos regular held some_bytes = ground arith

pub write_waits :
    (frame user : Bytes) (fuel : Fuel) (file : OpenFile) (in_buf in_len ppos : ℕ)
    → s_isreg file.inode.i_mode ≡ true
    → file.locked ≡ true
    → in_len ≢ 0
    → write frame fuel false file user in_buf in_len ppos ≡ out_of_fuel
unfolding write
write_waits frame user fuel file in_buf in_len ppos regular held some_bytes = ground arith
