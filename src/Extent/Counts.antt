-- ===== src/Extent/Counts.antt =====
-- `spfs_blocks_for` is a quotient that is rounded up.
use spfs.Base.{
  ℕ, zero, suc, ◌+◌, ◌-◌, ◌*◌, ◌≤◌, ◌<◌, ◌≡◌, ◌≢◌, ◌==◌, Bool-cases, inl, inr, arith, ok, ap, ◌∙◌,
}
use spfs.Extent.{min, blocks_for}

-- The last block of a run takes what is left, up to its size.
least_step :
    (block_size bytes n : ℕ)
    → bytes ≢ 0
    → bytes - min bytes block_size ≤ n * block_size
    → ((k : ℕ) → bytes - min bytes block_size ≤ k * block_size → n ≤ k)
    → (bytes ≤ (n + 1) * block_size) × ((k : ℕ) → bytes ≤ k * block_size → n + 1 ≤ k)
least_step block_size bytes n some_left fill least = (grind arith, below)
  where
    below : (k : ℕ) → bytes ≤ k * block_size → n + 1 ≤ k
    below zero h = grind arith
    below (suc k) h = omega (arith, least k (grind arith))

-- For a block size that is not 0 and more fuel than bytes, the loop ends. Its result is the least
-- number of blocks that hold the bytes: they fill all blocks but the last, which is not empty.
pub blocks_for_least :
    (fuel block_size bytes result : ℕ)
    → 0 < block_size
    → bytes < fuel
    → (n : ℕ) × (blocks_for fuel block_size bytes result ≡ ok (result + n))
      × (bytes ≤ n * block_size)
      × ((k : ℕ) → bytes ≤ k * block_size → n ≤ k)
unfolding blocks_for
blocks_for_least zero block_size bytes result positive enough = absurd (omega arith)
blocks_for_least (suc fuel) block_size bytes result positive enough =
    elim (Bool-cases (bytes == 0)) [
      | inl done ↦ (0, rw (done, blocks_for) (ap ok (omega arith)), grind arith, λ k h. omega arith)
      | inr more ↦
          let some_left : bytes ≢ 0 = ground arith in
          let (n, found, fill, least) =
            blocks_for_least fuel block_size (bytes - min bytes block_size) (result + 1) positive
              (ground arith) in
          let (fill', least') = least_step block_size bytes n some_left fill least in
          (n + 1, rw (more, blocks_for) (found ∙ ap ok (omega arith)), fill', least')
    ]
