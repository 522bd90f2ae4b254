-- ===== src/Device/Laws.antt =====
-- What is read after a write through a buffer head.
use spfs.Base.{ℕ, ◌≡◌, ◌≢◌, refl, ==_true, ==_false}
use spfs.Wire.{Buffer}
use spfs.Device.{Device, put}

module _ (dev : Device) (n : ℕ) (bh : Buffer) where
  pub put_self : (put dev n bh).blocks n ≡ bh.b_data
  unfolding put
  put_self = rw (==_true n n refl) refl

  pub put_ne : (k : ℕ) → k ≢ n → (put dev n bh).blocks k ≡ dev.blocks k
  unfolding put
  put_ne k h = rw (==_false k n h) refl

  pub put-readable : (put dev n bh).readable ≡ dev.readable
  unfolding put
  put-readable = refl

  pub put-block_size : (put dev n bh).block_size ≡ dev.block_size
  unfolding put
  put-block_size = refl
