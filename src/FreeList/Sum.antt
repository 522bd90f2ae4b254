-- ===== src/FreeList/Sum.antt =====
-- Measures of a list of free extents: how many blocks it has, and how often it holds a block.
use spfs.Base.{ℕ, ◌+◌, ◌&&◌, ltb, leb, if◌then◌else◌, List, [], ◌∷◌}
use spfs.FreeList.{Node}

unfoldable pub total : List Node → ℕ
total [] = 0
total (node ∷ rest) = node.blocks + total rest

-- Whether `b` is one of the `n` blocks from `start` on, as a number.
abbrev pub covers : ℕ → ℕ → ℕ → ℕ
covers start n b = if leb start b && ltb b (start + n) then 1 else 0

-- In how many of the extents `b` lies. It is 0 or 1 for every `b` when the extents are disjoint.
unfoldable pub holds : List Node → ℕ → ℕ
holds [] b = 0
holds (node ∷ rest) b = covers node.start node.blocks b + holds rest b
