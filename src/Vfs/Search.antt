-- ===== src/Vfs/Search.antt =====
-- The lookup of a name among the children of a directory.
use spfs.Base.{
  ℕ, zero, suc, ◌+◌, ◌≤◌, ◌<◌, ◌≡◌, ◌≢◌, ◌⊎◌, inl, inr, refl, sym, ap, ◌∙◌, ◌>>=◌, true, false,
  arith, Bool, none, some, Option, ok, Res, List, [], ◌∷◌, ◌++◌, ==_true, ==_false, ◌==◌,
  Bool-cases,
}
use spfs.Wire.{Bytes}
use spfs.Inode.{Failure, name_max}
use spfs.Dir.{Dir, visit}
use spfs.Dir.Visits.{visit_all}
use spfs.Dir.Chains.{IsFolder, for_all_children-IsFolder}
use spfs.Icache.{Live, Cache, Vfs, Kernel, found}
use spfs.Vfs.{Fuel, Name, str_eq, by_name_cb, visit_child, visit_children, lookup}
use spfs.Vfs.Lookup.{IsString, visit_child-kept}
use spfs.Vfs.Emit.{visit_all-goes, visit_all-stops}

-- The inode has the name, up to the 0 at its end.
abbrev pub IsCalled : Name → Live → Type 0
IsCalled name live = (q : ℕ) → q ≤ name.len → live.inode.name q ≡ name.text q

-- Children of a directory that are in memory, by their numbers.
abbrev pub AllHeld : Kernel → Cache → List (ℕ × Live) → Type 0
AllHeld kernel cache [] = Unit {0}
AllHeld kernel cache ((n, live) ∷ kids) =
    ((cache n ≡ some live) × (kernel.iget_locked cache n ≡ found live)) × AllHeld kernel cache kids

abbrev pub NoneCalled : Name → List (ℕ × Live) → Type 0
NoneCalled name [] = Unit {0}
NoneCalled name ((n, live) ∷ kids) = ¬ IsCalled name live × NoneCalled name kids

abbrev pub numbers : List (ℕ × Live) → List ℕ
numbers [] = []
numbers ((n, live) ∷ kids) = n ∷ numbers kids

-- The first child with the name, and those around it.
pub record FirstCalled (name : Name) (kids : List (ℕ × Live)) : Type 0 where
  pub before : List (ℕ × Live)
  pub ino : ℕ
  pub live : Live
  pub after : List (ℕ × Live)
  pub parts : kids ≡ before ++ ((ino, live) ∷ after)
  pub others : NoneCalled name before
  pub is_called : IsCalled name live

agree_at :
    (a b : Bytes) (k : ℕ) → ((q : ℕ) → q < k → a q ≡ b q) → a k ≡ b k → (q : ℕ) → q ≤ k → a q ≡ b q
agree_at a b k same here q h = elim (Bool-cases (q == k)) [
  | inl e ↦ let at_k : q ≡ k = ground (arith, e) in ap a at_k ∙ here ∙ sym (ap b at_k)
  | inr e ↦ same q (ground (arith, e))
]

-- `strcmp` with a string tells whether the bytes agree up to its end.
str_eq-cases :
    (left : ℕ) (a b : Bytes) (k len : ℕ)
    → k ≤ len
    → len < k + left
    → ((q : ℕ) → q < len → b q ≢ 0)
    → b len ≡ 0
    → ((q : ℕ) → q < k → a q ≡ b q)
    → (((q : ℕ) → q ≤ len → a q ≡ b q) × (str_eq left a b k ≡ ok true))
      ⊎ (¬ ((q : ℕ) → q ≤ len → a q ≡ b q) × (str_eq left a b k ≡ ok false))
unfolding str_eq
str_eq-cases zero a b k len below room inner end same = absurd (omega arith)
str_eq-cases (suc left) a b k len below room inner end same = elim (Bool-cases (a k == b k)) [
  | inr differ ↦ inr (λ all. ground (arith, differ, all k below), rw (str_eq, differ) refl)
  | inl agree ↦
      let here : a k ≡ b k = ground (arith, agree) in
      elim (Bool-cases (k == len)) [
        | inl e ↦ inl (
          λ q h. agree_at a b k same here q (ground (arith, e)),
          rw (str_eq, agree, ==_true (a k) 0 (here ∙ ap b (ground (arith, e)) ∙ end)) refl,
        )
        | inr e ↦
            let on : k + 1 ≤ len = ground (arith, e) in
            elim (str_eq-cases left a b (k + 1) len on (omega arith) inner end
              (λ q h. agree_at a b k same here q (omega arith))) [
                | inl (all, eq) ↦ inl (
                  all,
                  rw (str_eq, agree, ==_false (a k) 0 (λ z. inner k (omega arith) (sym here ∙ z)))
                      eq,
                )
                | inr (not_all, eq) ↦ inr (
                  not_all,
                  rw (str_eq, agree, ==_false (a k) 0 (λ z. inner k (omega arith) (sym here ∙ z)))
                      eq,
                )
              ]
      ]
]

module _ (kernel : Kernel) (frame : Bytes) (fuel : Fuel) (vfs : Vfs) (name : Name)
    (text : IsString name) where
  abbrev finder : Res Failure (Vfs × Option ℕ) → ℕ → Res Failure (Vfs × Option ℕ) × Bool
  finder = visit_child kernel frame fuel (by_name_cb name.text)

  by_name_cb-cases :
      (n : ℕ) (live : Live)
      → (IsCalled name live × (by_name_cb name.text none n live.inode ≡ ok (some n, false)))
        ⊎ (¬ IsCalled name live × (by_name_cb name.text none n live.inode ≡ ok (none, true)))
  unfolding by_name_cb
  by_name_cb-cases n live =
      elim (str_eq-cases name_max live.inode.name name.text 0 name.len (omega arith)
        (omega (arith, text.fits)) text.inner text.end (λ q h. absurd (omega arith))) [
          | inl (all, eq) ↦ inl (all, rw (by_name_cb, eq) refl)
          | inr (not_all, eq) ↦ inr (not_all, rw (by_name_cb, eq) refl)
        ]

  -- The visits of the children that are left, when none was found yet.
  visits-find :
      (kids : List (ℕ × Live))
      → AllHeld kernel vfs.cache kids
      → (NoneCalled name kids
          × ((visit_all some finder (numbers kids) (ok (vfs, none))).0 ≡ ok (vfs, none)))
        ⊎ ((first : FirstCalled name kids) × ((visit_all some finder
                (numbers kids)
                (ok (vfs, none))).0
              ≡ ok (vfs, some first.ino)))
  unfolding visit_all visit
  visits-find [] all = inl (tt, refl)
  visits-find ((n, live) ∷ kids) ((kept, known), all) = elim (by_name_cb-cases n live) [
    | inl (is, says) ↦ inr (
      record {
        before = [];
        ino = n;
        live = live;
        after = kids;
        parts = refl;
        others = tt;
        is_called = is;
      },
      ap (λ r. r.0)
          (visit_all-stops finder (ok (vfs, none)) n (numbers kids) (
            visit_child-kept kernel frame fuel vfs n live kept known (by_name_cb name.text) none
              (some n) false says)),
    )
    | inr (is_not, says) ↦
        let goes =
          ap (λ r. r.0)
            (visit_all-goes finder (ok (vfs, none)) n (numbers kids) (
              visit_child-kept kernel frame fuel vfs n live kept known (by_name_cb name.text) none
                none true says)) in
        elim (visits-find kids all) [
          | inl (absent, seen) ↦ inl ((is_not, absent), goes ∙ seen)
          | inr (first, seen) ↦ inr (
            record {
              before = (n, live) ∷ first.before;
              ino = first.ino;
              live = first.live;
              after = first.after;
              parts = ap (λ later. (n, live) ∷ later) first.parts;
              others = (is_not, first.others);
              is_called = first.is_called;
            },
            goes ∙ seen,
          )
        ]
  ]

  -- In a directory in memory with its children in any number of blocks, all of them in memory,
  -- with fuel enough for the blocks, `spfs_lookup` of a string of less than 256 bytes gives the
  -- first child that has the name, and changes nothing; where none has it, the result is NULL.
  pub lookup-FirstCalled :
      (parent : ℕ) (folder : Live) (blocks : List (List ℕ)) (kids : List (ℕ × Live))
      → vfs.cache parent ≡ some folder
      → IsFolder
          (record { dev = vfs.tree.dev; free = vfs.tree.free; parent = folder.inode })
          fuel.words
          fuel.blocks
          blocks
          (numbers kids)
      → AllHeld kernel vfs.cache kids
      → (NoneCalled name kids × (lookup kernel frame fuel vfs parent name.text ≡ ok (vfs, none)))
        ⊎ ((first : FirstCalled name kids) × (lookup kernel frame fuel vfs parent name.text
              ≡ ok (vfs, some first.ino)))
  unfolding lookup visit_children
  lookup-FirstCalled parent folder blocks kids cached is all =
      let dir : Dir = record { dev = vfs.tree.dev; free = vfs.tree.free; parent = folder.inode } in
      let visited =
        ap (λ r. r >>= λ both. both.0)
          (for_all_children-IsFolder some finder blocks fuel.words fuel.blocks dir (numbers kids)
            (ok (vfs, none)) is) in
      elim (visits-find kids all) [
        | inl (absent, seen) ↦ inl (absent, rw (lookup, cached) (visited ∙ seen))
        | inr (first, seen) ↦ inr (first, rw (lookup, cached) (visited ∙ seen))
      ]
