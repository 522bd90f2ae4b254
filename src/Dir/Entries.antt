-- ===== src/Dir/Entries.antt =====
-- The children as they lie in a block of a directory.
use spfs.Base.{ℕ, suc, ◌+◌, ◌*◌, ◌%◌, ◌^◌, ◌≤◌, ◌≡◌, ◌≢◌, inl, inr, arith, List, [], ◌∷◌, ◌++◌}
use spfs.Wire.{Bytes, load32, store32}
use spfs.Wire.Laws.{store32_ne, load32-store32, load32-store32_ne}

unfoldable pub length {ℓ} : {A : Type ℓ} → List A → ℕ
length [] = 0
length (x ∷ xs) = suc (length xs)

-- From `pos` on, one child in each eight bytes, in the first four of them, and then zeros only.
unfoldable pub Entries : Bytes → ℕ → List ℕ → Type 0
Entries m pos [] = (q : ℕ) → pos ≤ q → m q ≡ 0
Entries m pos (x ∷ xs) =
    (load32 m pos ≡ x) × (x ≢ 0) × (load32 m (pos + 4) ≡ 0) × Entries m (pos + 8) xs

-- A write before the children leaves them as they are.
pub Entries-store32 :
    (xs : List ℕ) (m : Bytes) (pos p v : ℕ)
    → p + 4 ≤ pos
    → Entries m pos xs
    → Entries (store32 m p v) pos xs
unfolding Entries
Entries-store32 [] m pos p v h is = λ q k. ground (arith, store32_ne m p v q, is q k)
Entries-store32 (x ∷ xs) m pos p v h (here, some_child, gap, rest) = (
  ground (arith, load32-store32_ne m p v pos (inr h)),
  some_child,
  ground (arith, load32-store32_ne m p v (pos + 4) (inr (omega arith))),
  Entries-store32 xs m (pos + 8) p v (omega arith) rest,
)

clear-load32 : (m : Bytes) (p pos : ℕ) → ((q : ℕ) → pos ≤ q → m q ≡ 0) → pos ≤ p → load32 m p ≡ 0
unfolding load32
clear-load32 m p pos clear h = ground (
  arith,
  clear p (omega arith),
  clear (p + 1) (omega arith),
  clear (p + 2) (omega arith),
  clear (p + 3) (omega arith),
)

-- A child written behind the last one is one child more.
pub Entries-append :
    (xs : List ℕ) (m : Bytes) (pos p v : ℕ)
    → p ≡ pos + length xs * 8
    → v % 2 ^ 32 ≢ 0
    → Entries m pos xs
    → Entries (store32 m p v) pos (xs ++ v % 2 ^ 32 ∷ [])
unfolding Entries length
Entries-append [] m pos p v e nz clear = (
  ground (arith, load32-store32 m pos v),
  nz,
  ground (
    arith,
    load32-store32_ne m p v (pos + 4) (inr (omega arith)),
    clear-load32 m (pos + 4) pos clear (omega arith),
  ),
  λ q k. ground (arith, store32_ne m p v q, clear q (omega arith)),
)
Entries-append (x ∷ xs) m pos p v e nz (here, some_child, gap, rest) = (
  ground (arith, load32-store32_ne m p v pos (inl (omega arith))),
  some_child,
  ground (arith, load32-store32_ne m p v (pos + 4) (inl (omega arith))),
  Entries-append xs m (pos + 8) p v (omega arith) nz rest,
)

pub length-snoc {ℓ} : {A : Type ℓ} (xs : List A) (x : A) → length (xs ++ x ∷ []) ≡ length xs + 1
unfolding length
length-snoc [] x = omega arith
length-snoc (y ∷ xs) x = omega (arith, length-snoc xs x)
