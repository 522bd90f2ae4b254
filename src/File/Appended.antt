-- ===== src/File/Appended.antt =====
-- The bytes of a file with some bytes of the caller behind them, in one block.
use spfs.Base.{
  ℕ, zero, suc, ◌+◌, ◌-◌, ◌*◌, ◌/◌, ◌%◌, ◌^◌, ◌≤◌, ◌<◌, ◌≡◌, sym, inl, inr, arith, ap, ◌∙◌, ltb,
  if◌then◌else◌,
}
use native.Mathlib.Nat.{suc-mul, div-eq_of_lt}
use spfs.Wire.{Bytes, load32, copy}
use spfs.Device.{Device}
use spfs.Extent.Headers.{header_at, headed-IsCut}
use spfs.Extent.Inside.{appended}
use spfs.Extent.Copies.{appended-magic, appended-length, appended_old, appended_new}
use spfs.Extent.Rounds.{flat, flat_here, less_cases}
use spfs.File.Whole.{IsFile}

-- The bytes of a file with those of the caller behind them.
abbrev pub with_new : (bytes : Bytes) → (len : ℕ) → (user : Bytes) → (in_buf : ℕ) → Bytes
with_new bytes len user in_buf k = if ltb k len then bytes k else user (in_buf + (k - len))

once : (b n : ℕ) → 0 < b → n ≤ b * n
once zero n h = omega arith
once (suc b) n h = omega (arith, suc-mul b n)

pub in_block : (start p size : ℕ) → p < size → start + p / size ≡ start
in_block start p size h = ap (λ d. start + d) (div-eq_of_lt h) ∙ omega arith

with_new_old :
    (bytes : Bytes) (len : ℕ) (user : Bytes) (in_buf k : ℕ)
    → k < len
    → with_new bytes len user in_buf k ≡ bytes k
with_new_old bytes len user in_buf k h = ground arith

with_new_new :
    (bytes : Bytes) (len : ℕ) (user : Bytes) (in_buf k : ℕ)
    → len ≤ k
    → with_new bytes len user in_buf k ≡ user (in_buf + (k - len))
with_new_new bytes len user in_buf k h = ground arith

module _ (dev dev' : Device) (start n in_buf : ℕ) (bytes user : Bytes)
    (room : 16 + (header_at (dev.blocks start)).length + n ≤ dev.block_size)
    (small : (header_at (dev.blocks start)).length + n < 2 ^ 32)
    (written : dev'.blocks start
      ≡ appended (dev.blocks start) (header_at (dev.blocks start)) user in_buf n)
    (readable : dev'.readable ≡ dev.readable) (size : dev'.block_size ≡ dev.block_size) where
  abbrev len : ℕ
  len = (header_at (dev.blocks start)).length

  new_length : (header_at (dev'.blocks start)).length ≡ len + n
  new_length =
      ap (λ m. (header_at m).length) written
      ∙ appended-length (dev.blocks start) (header_at (dev.blocks start)) user in_buf n small

  new_content :
      (k : ℕ)
      → k < len + n
      → ((k : ℕ) → k < len → flat dev start (16 + k) ≡ bytes k)
      → flat dev' start (16 + k) ≡ with_new bytes len user in_buf k
  new_content k h old =
      flat_here dev' start (16 + k) (omega (arith, size))
      ∙ ap (λ m. m (16 + k)) written
      ∙ elim (less_cases k len) [
        | inl early ↦
            appended_old (dev.blocks start) (header_at (dev.blocks start)) user in_buf n k early
            ∙ sym (flat_here dev start (16 + k) (omega arith))
            ∙ old k early
            ∙ sym (with_new_old bytes len user in_buf k early)
        | inr late ↦
            appended_new (dev.blocks start) (header_at (dev.blocks start)) user in_buf n (k - len) k
              (omega arith) (omega arith)
            ∙ sym (with_new_new bytes len user in_buf k late)
      ]

  -- The file with the bytes that were appended.
  pub new_IsFile :
      (blocks : ℕ)
      → 0 < blocks
      → IsFile dev blocks 1 start len bytes
      → IsFile dev' blocks 1 start (len + n) (with_new bytes len user in_buf)
  unfolding IsFile
  new_IsFile blocks some (is, (no_next, whole)) = (
    record {
      there = is.there;
      magic =
          ap (λ m. load32 m 0) written
          ∙ appended-magic (dev.blocks start) (header_at (dev.blocks start)) user in_buf n;
      part = omega (arith, new_length);
      fits = omega (arith, new_length, size, once blocks dev'.block_size some);
      readable = λ p h.
          ap dev'.readable (in_block start p dev'.block_size (omega (arith, new_length, size)))
          ∙ ap (λ f. f start) readable
          ∙ ap dev.readable (sym (in_block start 0 dev.block_size (omega arith)))
          ∙ is.readable 0 (omega arith);
      content = λ k h. new_content k (omega (arith, new_length)) is.content;
    },
    (
      ap (λ m. (header_at m).next) written
          ∙ omega (
            arith,
            no_next,
            (headed-IsCut (copy (dev.blocks start) (16 + len) (λ k. user (in_buf + k)) n)
                (record (header_at (dev.blocks start)) { length = (len + n) % 2 ^ 32 })).next,
          ),
      omega (arith, new_length),
    ),
  )
