-- ===== src/Bnode/Search.antt =====
-- What `bnode_bin_find_gte` finds. It halves a number of bytes and goes on by as many entries of 16
-- bytes, so each probe lies eight times as far as the number that it should halve.
use spfs.Base.{
  ℕ, suc, ◌+◌, ◌-◌, ◌*◌, ◌/◌, ◌%◌, ◌^◌, ◌≤◌, ◌<◌, ◌≡◌, ◌≢◌, ◌⊎◌, inl, inr, arith, ltb, ◌==◌,
  if◌then◌else◌, Bool-cases, ltb-true, ltb-false, ==_false, Option, none, some, Res, ok, bug, ◌∙◌,
  not, ◌||◌,
}
use spfs.Wire.{Buffer, load32}
use spfs.Inode.{Failure}
use spfs.Bnode.{entry_id, entries, length, find_loop, find_gte}

pub length-ok :
    (bh : Buffer) (n : ℕ) → 4 ≤ bh.b_size → load32 bh.b_data 0 ≡ n → n ≤ 100 → length bh ≡ ok n
unfolding length
length-ok bh n h e cap = ground arith

-- A probe outside the block.
find_loop_out :
    (fuel : ℕ) (bh : Buffer) (needle end it last mid : ℕ)
    → (it + (last + 2 ^ 64 - it) % 2 ^ 64 / 2 * 16) % 2 ^ 64 ≡ mid
    → bh.b_size < mid + 8
    → find_loop (suc fuel) bh needle end it last ≡ bug
unfolding find_loop
find_loop_out fuel bh needle end it last mid e h = rw e (rw (ltb-true bh.b_size (mid + 8) h))

-- A probe inside the block, between pointers that are at least two bytes apart.
find_loop_in :
    (fuel : ℕ) (bh : Buffer) (needle end it last mid : ℕ)
    → (it + (last + 2 ^ 64 - it) % 2 ^ 64 / 2 * 16) % 2 ^ 64 ≡ mid
    → mid + 8 ≤ bh.b_size
    → 1 < (last + 2 ^ 64 - it) % 2 ^ 64
    → find_loop (suc fuel) bh needle end it last ≡ (
        if ltb needle (entry_id bh mid)
        then find_loop fuel bh needle end it mid
        else if entry_id bh mid == needle
        then ok (some mid)
        else find_loop fuel bh needle end mid last)
unfolding find_loop
find_loop_in fuel bh needle end it last mid e h far =
    rw e (rw (ltb-false bh.b_size (mid + 8) h) (ground arith))

-- Both ways on from the first probe on the right, and from the second one, lead out of a block of
-- at most 8192 bytes.
module _ (bh : Buffer) (needle n : ℕ) (live : 0 < n) (cap : n ≤ 100)
    (small : bh.b_size ≤ 8192) where
  abbrev last : ℕ
  last = 4 + n * 16

  abbrev first_probe : ℕ
  first_probe = 4 + n * 128

  abbrev second_probe : ℕ
  second_probe = 4 + n * 1024

  -- The whole search, in terms of the two slots that it can look at.
  abbrev probes : Res Failure (Option ℕ)
  probes =
      if ltb bh.b_size (first_probe + 8)
      then bug
      else if ltb needle (entry_id bh first_probe)
      then (if ltb bh.b_size (second_probe + 8)
          then bug
          else if ltb needle (entry_id bh second_probe)
          then bug
          else if entry_id bh second_probe == needle
          then ok (some second_probe)
          else bug)
      else if entry_id bh first_probe == needle
      then ok (some first_probe)
      else bug

  right_of_first : (fuel : ℕ) → find_loop (suc fuel) bh needle last first_probe last ≡ bug
  right_of_first fuel =
      find_loop_out fuel bh needle last first_probe last (2 ^ 64 + 4 - n * 768) (omega arith)
        (omega arith)

  right_of_second : (fuel : ℕ) → find_loop (suc fuel) bh needle last second_probe first_probe ≡ bug
  right_of_second fuel =
      find_loop_out fuel bh needle last second_probe first_probe ((2 ^ 64 + 4 - n * 6144) % 2 ^ 64)
        (omega arith) (omega arith)

  left_of_second : (fuel : ℕ) → find_loop (suc fuel) bh needle last 4 second_probe ≡ bug
  left_of_second fuel =
      find_loop_out fuel bh needle last 4 second_probe (4 + n * 8192) (omega arith) (omega arith)

  -- The second probe.
  left_of_first :
      (fuel : ℕ)
      → find_loop (suc (suc fuel)) bh needle last 4 first_probe ≡ (
          if ltb bh.b_size (second_probe + 8)
          then bug
          else if ltb needle (entry_id bh second_probe)
          then bug
          else if entry_id bh second_probe == needle
          then ok (some second_probe)
          else bug)
  left_of_first fuel = elim (Bool-cases (ltb bh.b_size (second_probe + 8))) [
    | inl out ↦ rw out (
        find_loop_out (suc fuel) bh needle last 4 first_probe second_probe (omega arith)
          (ground arith))
    | inr in_block ↦ rw (
      in_block,
      find_loop_in (suc fuel) bh needle last 4 first_probe second_probe (omega arith) (ground arith)
          (omega arith),
      left_of_second fuel,
      right_of_second fuel,
    )
  ]

  find_loop-probes : (fuel : ℕ) → find_loop (suc (suc (suc fuel))) bh needle last 4 last ≡ probes
  find_loop-probes fuel = elim (Bool-cases (ltb bh.b_size (first_probe + 8))) [
    | inl out ↦ rw out (
        find_loop_out (suc (suc fuel)) bh needle last 4 last first_probe (omega arith)
          (ground arith))
    | inr in_block ↦ rw (
      in_block,
      find_loop_in (suc (suc fuel)) bh needle last 4 last first_probe (omega arith) (ground arith)
          (omega arith),
      left_of_first fuel,
      right_of_first (suc fuel),
    )
  ]

  module _ (has_length : load32 bh.b_data 0 ≡ n) (header : 4 ≤ bh.b_size) where
    find_gte-probes : (fuel : ℕ) → find_gte (suc (suc (suc fuel))) bh needle ≡ probes
    unfolding find_gte
    find_gte-probes fuel =
        let unwrapped : last % 2 ^ 64 ≡ last = omega arith in
        rw (
          length-ok bh n header has_length cap,
          ltb-false 100 n cap,
          ==_false n 0 (omega arith),
          unwrapped,
          find_loop-probes fuel,
        )

    -- In a node with 1 to 100 entries, in a block of at most 8192 bytes, the search ends within
    -- three probes and looks at most at two slots, the eighth and the sixty-fourth multiple of the
    -- number of entries. It stops outside the block, or it finds the needle in one of the two. Both
    -- lie behind the last entry of the node: the search never finds an entry of the node, and
    -- never says that the needle is larger than every entry.
    pub find_gte_misses :
        (fuel : ℕ)
        → (find_gte (suc (suc (suc fuel))) bh needle ≡ bug)
          ⊎ ((p : ℕ) × (find_gte (suc (suc (suc fuel))) bh needle ≡ ok (some p))
              × (entry_id bh p ≡ needle)
              × ((p ≡ entries + 8 * n * 16) ⊎ (p ≡ entries + 64 * n * 16))
              × (entries + n * 16 ≤ p))
    find_gte_misses fuel = elim (Bool-cases (entry_id bh first_probe == needle)) [
      | inl hit ↦ elim (Bool-cases (ltb bh.b_size (first_probe + 8))) [
        | inl out ↦ inl (rw (find_gte-probes fuel, out))
        | inr in_block ↦ inr (
          first_probe,
          rw (find_gte-probes fuel) (ground arith),
          ground arith,
          inl (omega arith),
          omega arith,
        )
      ]
      | inr miss ↦ elim (Bool-cases (entry_id bh second_probe == needle)) [
        | inl hit ↦
            elim (Bool-cases
              (ltb bh.b_size (second_probe + 8) || not (ltb needle (entry_id bh first_probe)))) [
                | inl out ↦ inl (rw (find_gte-probes fuel) (ground arith))
                | inr in_block ↦ inr (
                  second_probe,
                  rw (find_gte-probes fuel) (ground arith),
                  ground arith,
                  inr (omega arith),
                  omega arith,
                )
              ]
        | inr miss_too ↦ inl (rw (find_gte-probes fuel) (ground arith))
      ]
    ]

-- A node with no entries gives NULL.
pub find_gte_empty :
    (fuel : ℕ) (bh : Buffer) (needle : ℕ)
    → 4 ≤ bh.b_size
    → load32 bh.b_data 0 ≡ 0
    → find_gte fuel bh needle ≡ ok none
unfolding find_gte
find_gte_empty fuel bh needle h e = rw (length-ok bh 0 h e (omega arith))

-- Where the bytes behind the entries are all clear, as `bnode_make` leaves them, every search for
-- a needle other than 0 stops outside the block.
pub find_gte_clear :
    (fuel : ℕ) (bh : Buffer) (needle n : ℕ)
    → 0 < n
    → n ≤ 100
    → 4 ≤ bh.b_size
    → bh.b_size ≤ 8192
    → load32 bh.b_data 0 ≡ n
    → ((q : ℕ) → entries + n * 16 ≤ q → bh.b_data q ≡ 0)
    → needle ≢ 0
    → find_gte (suc (suc (suc fuel))) bh needle ≡ bug
find_gte_clear fuel bh needle n live cap header small e clear ne =
    find_gte-probes bh needle n live cap small e header fuel
    ∙ (unfold load32 in
        ground (
          arith,
          clear (entries + n * 128),
          clear (entries + n * 128 + 1),
          clear (entries + n * 128 + 2),
          clear (entries + n * 128 + 3),
          clear (entries + n * 1024),
          clear (entries + n * 1024 + 1),
          clear (entries + n * 1024 + 2),
          clear (entries + n * 1024 + 3),
        ))
