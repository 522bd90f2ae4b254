-- ===== src/FreeList/Alloc.antt =====
-- What `spfs_free_alloc` promises: it hands out free blocks, each at most once, and counts them.
use spfs.Base.{
  ℕ, ◌+◌, ◌≤◌, ◌<◌, ◌≡◌, ◌↔◌, refl, ◌⊎◌, inl, inr, true, false, arith, ◌==◌, if◌then◌else◌, List,
  [], ◌∷◌, Bool-cases,
}
use spfs.FreeList.{Node, FreeList, take_from, free_alloc}
use spfs.FreeList.Sum.{total, covers, holds}

-- The counter of the list agrees with its extents.
abbrev pub IsCounted : FreeList → Type 0
IsCounted list = list.blocks ≡ total list.root

-- The extents hold a block as often as before, less the blocks that were cut off.
take_from-holds :
    (nodes : List Node) (n b : ℕ)
    → holds nodes b
      ≡ holds (take_from nodes n).0 b
        + (if (take_from nodes n).2 then covers (take_from nodes n).1 n b else 0)
unfolding take_from holds
take_from-holds [] n b = refl
take_from-holds (node ∷ rest) n b = ground (arith, take_from-holds rest n b)

take_from-total :
    (nodes : List Node) (n : ℕ)
    → total nodes ≡ total (take_from nodes n).0 + (if (take_from nodes n).2 then n else 0)
unfolding take_from total
take_from-total [] n = refl
take_from-total (node ∷ rest) n = ground (arith, take_from-total rest n)

-- Where nothing is found, nothing changes and the result is 0.
take_from_none :
    (nodes : List Node) (n : ℕ)
    → (take_from nodes n).2 ≡ false
    → ((take_from nodes n).0 ≡ nodes) × ((take_from nodes n).1 ≡ 0)
unfolding take_from
take_from_none [] n h = (refl, refl)
take_from_none (node ∷ rest) n h = ground (arith, take_from_none rest n)

-- Every extent starts behind block 0, so that 0 as a result means that there was none.
abbrev pub AllPositive : List Node → Type 0
AllPositive [] = Unit
AllPositive (node ∷ rest) = (0 < node.start) × AllPositive rest

take_from-AllPositive :
    (nodes : List Node) (n : ℕ) → AllPositive nodes → AllPositive (take_from nodes n).0
unfolding take_from
take_from-AllPositive [] n h = h
take_from-AllPositive (node ∷ rest) n h = ground (arith, take_from-AllPositive rest n h.1)

-- What is found is not block 0.
take_from_found :
    (nodes : List Node) (n : ℕ)
    → AllPositive nodes
    → (take_from nodes n).2 ≡ true
    → 0 < (take_from nodes n).1
unfolding take_from
take_from_found [] n h e = ground arith
take_from_found (node ∷ rest) n h e = ground (arith, take_from_found rest n h.1)

-- An extent with `n` blocks is found.
abbrev pub AllSmaller : List Node → ℕ → Type 0
AllSmaller [] n = Unit
AllSmaller (node ∷ rest) n = (node.blocks < n) × AllSmaller rest n

take_from_smaller : (nodes : List Node) (n : ℕ) → AllSmaller nodes n → (take_from nodes n).2 ≡ false
unfolding take_from
take_from_smaller [] n h = refl
take_from_smaller (node ∷ rest) n h = ground (arith, take_from_smaller rest n h.1)

smaller_of_none : (nodes : List Node) (n : ℕ) → (take_from nodes n).2 ≡ false → AllSmaller nodes n
unfolding take_from
smaller_of_none [] n h = tt
smaller_of_none (node ∷ rest) n h = (ground arith, smaller_of_none rest n (ground arith))

-- A list that the driver works with.
pub record IsValid (list : FreeList) : Type 0 where
  pub counted : IsCounted list
  pub positive : AllPositive list.root

-- The blocks of a grant: none, if the result was 0.
abbrev pub grants : ℕ → ℕ → ℕ → ℕ
grants result n b = if result == 0 then 0 else covers result n b

module _ (list : FreeList) (n : ℕ) (valid : IsValid list) where
  free_alloc-IsValid : IsValid (free_alloc list n).0
  unfolding free_alloc
  free_alloc-IsValid = ground (
    arith,
    take_from-total list.root n,
    take_from_none list.root n,
    take_from-AllPositive list.root n valid.positive,
  )

  free_alloc-holds :
      (b : ℕ)
      → holds list.root b ≡ holds (free_alloc list n).0.root b + grants (free_alloc list n).1 n b
  unfolding free_alloc
  free_alloc-holds b = ground (
    arith,
    take_from-holds list.root n b,
    take_from_none list.root n,
    take_from_found list.root n valid.positive,
  )

  -- On a valid list the allocator gives 0 exactly when the list as a whole has no more than `n`
  -- blocks, or no single extent has `n`.
  pub free_alloc_refuses :
      ((free_alloc list n).1 ≡ 0) ↔ ((list.blocks ≤ n) ⊎ AllSmaller list.root n)
  unfolding free_alloc
  free_alloc_refuses = (
    λ h. elim (Bool-cases (take_from list.root n).2) [
      | inl hit ↦ inl (ground (arith, take_from_found list.root n valid.positive hit))
      | inr miss ↦ inr (smaller_of_none list.root n miss)
    ],
    λ h. elim h [
      | inl few ↦ ground arith
      | inr small ↦
          let miss = take_from_smaller list.root n small in
          ground (arith, take_from_none list.root n miss)
    ],
  )

  -- On a valid list the counter goes down by the `n` blocks that are granted, and stays as it was
  -- if the allocator gives 0.
  pub free_alloc_counter :
      (free_alloc list n).0.blocks + (if (free_alloc list n).1 == 0 then 0 else n) ≡ list.blocks
  unfolding free_alloc
  free_alloc_counter = ground (
    arith,
    take_from-total list.root n,
    take_from_none list.root n,
    take_from_found list.root n valid.positive,
  )

-- A client that asks for `requests` in turn, and keeps what it is granted.
unfoldable pub serve : FreeList → List ℕ → FreeList × List (ℕ × ℕ)
serve list [] = (list, [])
serve list (n ∷ requests) =
    let (list', result) = free_alloc list n in
    let (last, granted) = serve list' requests in (last, (result, n) ∷ granted)

-- How many of the grants hold the block `b`.
unfoldable pub granted_times : List (ℕ × ℕ) → ℕ → ℕ
granted_times [] b = 0
granted_times ((result, n) ∷ rest) b = grants result n b + granted_times rest b

-- Over any sequence of allocations from a valid list, the list stays valid, and each block is as
-- often in the remaining extents and the grants together as it was in the extents at first. So a
-- block that was free once is granted at most once, and is not free any more when it was granted.
pub serve-holds :
    (list : FreeList) (requests : List ℕ)
    → IsValid list
    → IsValid (serve list requests).0
      × ((b : ℕ)
          → holds list.root b
            ≡ holds (serve list requests).0.root b + granted_times (serve list requests).1 b)
unfolding serve granted_times
serve-holds list [] valid = (valid, λ b. omega arith)
serve-holds list (n ∷ requests) valid =
    let (ok_last, eq) =
      serve-holds (free_alloc list n).0 requests (free_alloc-IsValid list n valid) in
    (ok_last, λ b. omega (arith, free_alloc-holds list n valid b, eq b))
