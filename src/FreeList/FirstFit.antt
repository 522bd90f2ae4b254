-- ===== src/FreeList/FirstFit.antt =====
-- The whole of `spfs_free_alloc`: it takes the first extent that is large enough.
use spfs.Base.{
  ℕ, ◌-◌, ◌+◌, ◌≤◌, ◌<◌, ◌≡◌, ◌⊎◌, inl, inr, refl, ap, arith, true, false, ltb, leb, Bool-cases,
  List, [], ◌∷◌, ◌++◌,
}
use spfs.FreeList.{Node, FreeList, take_from, free_alloc}
use spfs.FreeList.Alloc.{AllSmaller}

-- The extent without its last `n` blocks.
abbrev pub shortened : Node → ℕ → Node
shortened node n = record node { blocks = node.blocks - n }

-- The first extent of `root` with `n` blocks, and those around it.
pub record FirstFit (root : List Node) (n : ℕ) : Type 0 where
  pub before : List Node
  pub node : Node
  pub after : List Node
  pub parts : root ≡ before ++ (node ∷ after)
  pub smaller : AllSmaller before n
  pub large : n ≤ node.blocks

module _ {root : List Node} {n : ℕ} (fit : FirstFit root n) where
  -- What is left of the extents.
  abbrev pub left : List Node
  left = fit.before ++ (shortened fit.node n ∷ fit.after)

  -- The first block that is granted.
  abbrev pub grant : ℕ
  grant = fit.node.start + (fit.node.blocks - n)

take_from-FirstFit :
    (root : List Node) (n : ℕ)
    → (AllSmaller root n × (take_from root n ≡ (root, 0, false)))
      ⊎ ((fit : FirstFit root n) × (take_from root n ≡ (left fit, grant fit, true)))
unfolding take_from
take_from-FirstFit [] n = inl (tt, refl)
take_from-FirstFit (node ∷ rest) n = elim (Bool-cases (leb n node.blocks)) [
  | inl large ↦ inr (
    record {
      before = [];
      node = node;
      after = rest;
      parts = refl;
      smaller = tt;
      large = ground (arith, large);
    },
    rw (large) refl,
  )
  | inr small ↦ elim (take_from-FirstFit rest n) [
    | inl (all, e) ↦ inl ((ground (arith, small), all), rw (small, e) refl)
    | inr (fit, e) ↦ inr (
      record {
        before = node ∷ fit.before;
        node = fit.node;
        after = fit.after;
        parts = ap (λ nodes. node ∷ nodes) fit.parts;
        smaller = (ground (arith, small), fit.smaller);
        large = fit.large;
      },
      rw (small, e) refl,
    )
  ]
]

-- `spfs_free_alloc` is first fit. It gives 0 and changes nothing where the whole list has no more
-- than `n` blocks, or no single extent has `n`. Otherwise the first extent that has `n` blocks
-- gives up its last ones, of which the result is the first: the other extents stay, those before
-- it are all smaller, and the counter goes down by `n`.
pub free_alloc-FirstFit :
    (list : FreeList) (n : ℕ)
    → (((list.blocks ≤ n) ⊎ AllSmaller list.root n) × (free_alloc list n ≡ (list, 0)))
      ⊎ ((fit : FirstFit list.root n) × (n < list.blocks)
          × (free_alloc list n ≡ (record { blocks = list.blocks - n; root = left fit }, grant fit)))
unfolding free_alloc
free_alloc-FirstFit list n = elim (Bool-cases (ltb n list.blocks)) [
  | inr few ↦ inl (inl (ground (arith, few)), rw few refl)
  | inl enough ↦ elim (take_from-FirstFit list.root n) [
    | inl (all, e) ↦ inl (inr all, rw (enough, e) refl)
    | inr (fit, e) ↦ inr (fit, ground (arith, enough), rw (enough, e) refl)
  ]
]
