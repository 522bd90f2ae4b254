-- ===== src/Extent/Rounds.antt =====
-- One round of the loop of `spfs_read_file_extent`, as what a source of bytes gives a reader.
use spfs.Base.{
  ◌⊎◌, sym, ltb-false, ℕ, ◌+◌, ◌-◌, ◌/◌, ◌%◌, ◌≤◌, ◌<◌, ◌≡◌, refl, inl, inr, arith, ok, ap, ◌∙◌,
}
use native.Mathlib.Nat.{sub_self, div-eq_of_lt, mod-eq_of_lt, add-div_left, add-mod_left}
use spfs.Wire.{Bytes, Buffer, copy}
use spfs.Wire.Laws.{copy_self, copy_ne}
use spfs.Device.{Device}
use spfs.Extent.{Reader, min, read_block}

-- A byte behind the beginning of the block `start`, in that block or one behind it.
unfoldable pub flat : Device → (start : ℕ) → Bytes
flat dev start p = dev.blocks (start + p / dev.block_size) (p % dev.block_size)

pub flat_here :
    (dev : Device) (start p : ℕ) → p < dev.block_size → flat dev start p ≡ dev.blocks start p
unfolding flat
flat_here dev start p h =
    ap (λ n. dev.blocks n (p % dev.block_size)) (ap (λ d. start + d) (div-eq_of_lt h) ∙ omega arith)
    ∙ ap (dev.blocks start) (mod-eq_of_lt h)

pub flat_next :
    (dev : Device) (start p : ℕ)
    → 0 < dev.block_size
    → flat dev start (dev.block_size + p) ≡ flat dev (start + 1) p
unfolding flat
flat_next dev start p h =
    ap (λ n. dev.blocks n ((dev.block_size + p) % dev.block_size))
      (ap (λ d. start + d) (add-div_left p h) ∙ omega arith)
    ∙ ap (dev.blocks (start + 1 + p / dev.block_size)) (add-mod_left dev.block_size p)

pub min_left : (a b : ℕ) → a < b → min a b ≡ a
min_left a b h = ground arith

pub min_right : (a b : ℕ) → b ≤ a → min a b ≡ b
min_right a b h = ground arith

pub less_cases : (a b : ℕ) → (a < b) ⊎ (b ≤ a)
less_cases a b = omega arith

-- What becomes of a reader that is given a source of `len` bytes: it skips as many as its position
-- says, and takes all that are left.
pub record IsGiven (len : ℕ) (bytes : Bytes) (r r' : Reader) : Type 0 where
  pub pos : r'.pos ≡ r.pos - len
  pub in_len : r'.in_len ≡ r.in_len - (len - r.pos)
  pub in_buf : r'.in_buf ≡ r.in_buf + (len - r.pos)
  pub filled : (k : ℕ) → k < len - r.pos → r'.user (r.in_buf + k) ≡ bytes (r.pos + k)
  pub before : (k : ℕ) → k < r.in_buf → r'.user k ≡ r.user k
  pub after : (k : ℕ) → r.in_buf + (len - r.pos) ≤ k → r'.user k ≡ r.user k

-- One source behind the other.
pub IsGiven-append :
    (a b : ℕ) (bytes bytes' : Bytes) (r r1 r2 : Reader)
    → ((k : ℕ) → k < b → bytes (a + k) ≡ bytes' k)
    → IsGiven a bytes r r1
    → IsGiven b bytes' r1 r2
    → IsGiven (a + b) bytes r r2
IsGiven-append a b bytes bytes' r r1 r2 next first second = record {
  pos = omega (arith, first.pos, second.pos);
  in_len = omega (arith, first.pos, first.in_len, second.in_len);
  in_buf = omega (arith, first.pos, first.in_buf, second.in_buf);
  filled = λ k h. elim (less_cases k (a - r.pos)) [
    | inl early ↦ second.before (r.in_buf + k) (omega (arith, first.in_buf)) ∙ first.filled k early
    | inr late ↦
        ap r2.user (omega (arith, first.in_buf))
        ∙ second.filled (k - (a - r.pos)) (omega (arith, first.pos))
        ∙ sym (next (r1.pos + (k - (a - r.pos))) (omega (arith, first.pos)))
        ∙ ap bytes (omega (arith, first.pos))
  ];
  before = λ k h. second.before k (omega (arith, first.in_buf)) ∙ first.before k h;
  after =
      λ k h. second.after k (omega (arith, first.in_buf, first.pos)) ∙ first.after k (omega arith);
}

-- The same source in other words.
pub IsGiven-same :
    (a b : ℕ) (bytes bytes' : Bytes) (r r' : Reader)
    → a ≡ b
    → ((k : ℕ) → k < b → bytes k ≡ bytes' k)
    → IsGiven a bytes r r'
    → IsGiven b bytes' r r'
IsGiven-same a b bytes bytes' r r' e same given = record {
  pos = omega (arith, given.pos);
  in_len = omega (arith, given.in_len);
  in_buf = omega (arith, given.in_buf);
  filled = λ k h. given.filled k (omega arith) ∙ same (r.pos + k) (omega arith);
  before = given.before;
  after = λ k h. given.after k (omega arith);
}

-- One round: what it counts, what is left of the extent, and the reader.
module _ (bh : Buffer) (bh_pos len : ℕ) (r : Reader) where
  -- The bytes of the extent in the block, and those of them that are copied.
  abbrev pub here : ℕ
  here = min (bh.b_size - bh_pos) len

  abbrev pub copied : ℕ
  copied = here - r.pos

  abbrev behind : Reader
  behind = record {
    user = copy r.user r.in_buf (λ k. bh.b_data (bh_pos + r.pos + k)) copied;
    in_buf = r.in_buf + copied;
    in_len = r.in_len - copied;
    pos = 0;
  }

  taken_first : r.pos ≤ here → min r.pos here ≡ r.pos
  taken_first reached = ground arith

  in_block : bh_pos ≤ bh.b_size → r.pos ≤ here → bh_pos + r.pos ≤ bh.b_size
  in_block inside reached = ground arith

  taken_then :
      len ≤ r.pos + r.in_len
      → r.pos ≤ here
      → min r.in_len (min (bh.b_size - (bh_pos + r.pos)) (len - r.pos)) ≡ copied
  taken_then room reached = ground arith

  left_then : r.pos ≤ here → len - r.pos - copied ≡ len - here
  left_then reached = ground arith

  read_block_on :
      bh_pos ≤ bh.b_size
      → len ≤ r.pos + r.in_len
      → r.pos ≤ here
      → read_block bh bh_pos len r ≡ ok (copied, len - here, behind)
  unfolding read_block
  read_block_on inside room reached =
      rw
        (
          read_block,
          ltb-false bh.b_size bh_pos inside,
          taken_first reached,
          sub_self r.pos,
          ltb-false bh.b_size (bh_pos + r.pos) (in_block inside reached),
          taken_then room reached,
          left_then reached,
        )
        refl

  read_block_off :
      bh_pos ≤ bh.b_size
      → here < r.pos
      → read_block bh bh_pos len r ≡ ok (0, len - here, record r { pos = r.pos - here })
  unfolding read_block
  read_block_off inside far = ground arith

  pub read_block-IsGiven :
      bh_pos ≤ bh.b_size
      → len ≤ r.pos + r.in_len
      → (r' : Reader) × (read_block bh bh_pos len r ≡ ok (copied, len - here, r'))
        × IsGiven here (λ k. bh.b_data (bh_pos + k)) r r'
  read_block-IsGiven inside room = elim (less_cases here r.pos) [
    | inl far ↦ (
      record r { pos = r.pos - here },
      read_block_off inside far
          ∙ ap (λ n. ok (n, len - here, record r { pos = r.pos - here })) (omega arith),
      record {
        pos = refl;
        in_len = omega arith;
        in_buf = omega arith;
        filled = λ k h. absurd (omega arith);
        before = λ k h. refl;
        after = λ k h. refl;
      },
    )
    | inr reached ↦ (
      behind,
      read_block_on inside room reached,
      record {
        pos = omega arith;
        in_len = refl;
        in_buf = refl;
        filled = λ k h.
            copy_self r.user r.in_buf (λ k. bh.b_data (bh_pos + r.pos + k)) copied k h
            ∙ ap bh.b_data (omega arith);
        before =
            λ k h. copy_ne r.user r.in_buf (λ k. bh.b_data (bh_pos + r.pos + k)) copied k (inl h);
        after =
            λ k h. copy_ne r.user r.in_buf (λ k. bh.b_data (bh_pos + r.pos + k)) copied k (inr h);
      },
    )
  ]
