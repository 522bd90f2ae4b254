-- ===== src/System/Locks.antt =====
-- What is left of a write that failed: the lock of the inode, in every later state.
use spfs.Base.{
  arith, ==_true, ℕ, ◌==◌, ◌≡◌, ◌≢◌, refl, ap, sym, ◌∙◌, true, false, Bool-cases, Bool, inl, inr,
  some, ok, out_of_fuel,
}
use spfs.Wire.{Bytes}
use spfs.Extent.{Ssize, count}
use spfs.File
use spfs.File.{OpenFile, read, write, s_isreg}
use spfs.File.Reports.{write_locked, read_keeps, write_failure, read_locked, write_waits}
use spfs.Icache.{Live, Ops, Kernel}
use spfs.System.{
  System, set, opened, left_by, forgotten, Step, Reach, creates, makes_dir, looks_up, iterates,
  reads, writes, stores, forgets, here, next,
}
use spfs.System.Typed.{IsTyped, AllTyped}
use spfs.System.Sound.{Step-IsSound, Reach-IsSound}
use spfs.FreeList.Served.{Served-refl}

-- A function that is changed at one number still has a value that the new one has as well.
==_same : (a b : ℕ) → (a == b) ≡ true → a ≡ b
==_same a b h = ground arith

set_keeps :
    (f : ℕ → Bool) (m n : ℕ) (b : Bool)
    → f n ≡ true
    → (m ≡ n → f m ≡ true → b ≡ true)
    → set f m b n ≡ true
set_keeps f m n b there new = elim (Bool-cases (n == m)) [
  | inl e ↦ rw (e) (let same = sym (==_same n m e) in new same (ap f same ∙ there))
  | inr e ↦ rw (e) there
]

IsTyped-file :
    (live : Live) → live.ops ≡ some Ops.file_ops → IsTyped live → s_isreg live.inode.i_mode ≡ true
IsTyped-file live ops (inl (o, regular)) = regular
IsTyped-file live ops (inr (o, dir)) = cc

module _ (kernel : Kernel) (frame : Bytes) (is_open : ℕ → Bool) (n : ℕ)
    (used : is_open n ≡ true) where
  Step-held : (s s' : System) → Step kernel frame is_open s s' → s.held n ≡ true → s'.held n ≡ true
  unfolding left_by forgotten
  Step-held s s' (creates fuel parent name mode made h) held = held
  Step-held s s' (makes_dir fuel parent name mode made h) held = held
  Step-held s s' (looks_up fuel parent name inode vfs h) held = held
  Step-held s s' (iterates fuel dir_emit dots parent ctx ctx' res vfs h) held = held
  Step-held s s' (reads blocks fuel m live user user' buf len pos pos' res file there ops h) held =
      set_keeps s.held m n file.locked held
        (λ _. (read_keeps blocks fuel (opened s m live) user buf len pos res pos' user' file h).1)
  Step-held s s' (writes fuel signal m live user buf len pos pos' res file there ops h) held =
      set_keeps s.held m n file.locked held (λ _ locked.
        write_locked frame user fuel signal (opened s m live) buf len pos res pos' file locked h)
  Step-held s s' (stores fuel m live res tree there h) held = held
  Step-held s s' (forgets m was size closed) held =
      set_keeps s.held m n was held (λ same _. let used' = ap is_open same in cc)

  Reach-held :
      (s s' : System) → Reach kernel frame is_open s s' → s.held n ≡ true → s'.held n ≡ true
  Reach-held s s' here held = held
  Reach-held s s' (next before step) held = Step-held _ s' step (Reach-held s _ before held)

  left_by_held :
      (s : System) (live : Live) (file : OpenFile)
      → file.locked ≡ true
      → (left_by s n live file).held n ≡ true
  unfolding left_by
  left_by_held s live file held = rw (==_true n n refl) held

  module _ (s : System) (live : Live) (fuel : File.Fuel) (user : Bytes) (in_buf in_len ppos : ℕ)
      (res : Ssize) (pos' : ℕ) (file : OpenFile) where
    -- A write of at least one byte, with no signal, that does not return 0, to a file that stays
    -- open, in a state where each inode in memory has the operations of its mode: in every state
    -- that calls of the tables lead to from there, no read and no write of at least one byte, with
    -- no signal, of this file ever returns, whatever it is given.
    pub write-Reach :
        AllTyped s.vfs.cache
        → s.vfs.cache n ≡ some live
        → live.ops ≡ some Ops.file_ops
        → in_len ≢ 0
        → res ≢ count 0
        → write frame fuel false (opened s n live) user in_buf in_len ppos ≡ ok (res, pos', file)
        → (s' : System) → Reach kernel frame is_open (left_by s n live file) s'
        → (live' : Live) → s'.vfs.cache n ≡ some live'
        → live'.ops ≡ some Ops.file_ops
        → (blocks levels : ℕ) (fuel' : File.Fuel) (memory : Bytes) (buf len pos : ℕ) → len ≢ 0
        → (read blocks levels (opened s' n live') memory buf len pos ≡ out_of_fuel)
          × (write frame fuel' false (opened s' n live') memory buf len pos ≡ out_of_fuel)
    write-Reach all there ops some_bytes failed h s' reached live' there' ops' blocks levels fuel'
          memory buf len pos some_room =
        let step : Step kernel frame is_open s (left_by s n live file) =
          writes fuel false n live user in_buf in_len ppos pos' res file there ops h in
        let free = s.vfs.tree.free in
        let sound = Step-IsSound free kernel frame is_open s _ step (all, Served-refl free) in
        let all' = Reach-IsSound free kernel frame is_open _ s' reached sound in
        let regular = IsTyped-file live' ops' (all'.0 n live' there') in
        let (lock, mode) =
          write_failure frame user fuel false (opened s n live) in_buf in_len ppos some_bytes res
            pos' file (IsTyped-file live ops (all n live there)) refl failed h in
        let held = Reach-held _ s' reached (left_by_held s live file lock) in
        (
          read_locked blocks levels (opened s' n live') memory buf len pos regular held some_room,
          write_waits frame memory fuel' (opened s' n live') buf len pos regular held some_room,
        )
