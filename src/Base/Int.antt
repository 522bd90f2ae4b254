-- ===== src/Base/Int.antt =====
-- Signed results of system calls. `negsuc n` is -(n + 1).
use Prim.Native.Nat.{ℕ, compare, Ordering}
use mathlib.Core.Bool.{Bool, true, false}

pub data ℤ : Type 0 where
  pos : ℕ → ℤ
  negsuc : ℕ → ℤ

-- Whether a result is the natural number `n`.
abbrev pub is_pos : ℤ → ℕ → Bool
is_pos (pos m) n = elim (compare m n) [ Ordering.eq ↦ true | _ ↦ false ]
is_pos (negsuc m) n = false
