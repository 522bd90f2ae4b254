-- ===== src/Vfs/Emit.antt =====
-- The entries that `spfs_iterate_cb` gives to `dir_emit`.
use spfs.Base.{
  ℕ, zero, suc, ◌+◌, ◌/◌, ◌%◌, ◌^◌, ◌≤◌, ◌<◌, ◌≡◌, ◌≢◌, refl, true, false, arith, Bool, some, ok,
  List, [], ◌∷◌, ==_true, ==_false, if◌then◌else◌, ◌==◌, Bool-cases, inl, inr, ◌∙◌, ap,
}
use spfs.Wire.{Bytes}
use spfs.Inode.{name_max}
use spfs.Dir.{visit}
use spfs.Dir.Entries.{length}
use spfs.Dir.Visits.{visit_all}
use spfs.Icache.{Live, Cache, Kernel, found}
use spfs.Vfs.{Fuel, Entry, DirContext, str_len, iterate_cb}

-- An inode in memory, with the length of its name.
pub record Kid : Type 0 where
  pub ino : ℕ
  pub live : Live
  pub len : ℕ

-- The kernel has it, and its name is a string that ends in the inode.
pub record IsKid (kernel : Kernel) (cache : Cache) (kid : Kid) : Type 0 where
  pub kept : cache kid.ino ≡ some kid.live
  pub known : kernel.iget_locked cache kid.ino ≡ found kid.live
  pub fits : kid.len < name_max
  pub inner : (q : ℕ) → q < kid.len → kid.live.inode.name q ≢ 0
  pub end : kid.live.inode.name kid.len ≡ 0

abbrev pub AllKids : Kernel → Cache → List Kid → Type 0
AllKids kernel cache [] = Unit {0}
AllKids kernel cache (kid ∷ kids) = IsKid kernel cache kid × AllKids kernel cache kids

abbrev pub inos : List Kid → List ℕ
inos [] = []
inos (kid ∷ kids) = kid.ino ∷ inos kids

abbrev pub entry_of : Kid → Entry
entry_of kid = record {
  name = kid.live.inode.name;
  len = kid.len;
  ino = kid.live.inode.i_ino;
  type = kid.live.inode.i_mode / 2 ^ 12 % 16;
}

abbrev pub drop {ℓ} : {A : Type ℓ} → ℕ → List A → List A
drop zero xs = xs
drop (suc n) [] = []
drop (suc n) (x ∷ xs) = drop n xs

pub drop-all {ℓ} : {A : Type ℓ} (n : ℕ) (xs : List A) → length xs ≤ n → drop n xs ≡ []
unfolding length
drop-all zero [] h = refl
drop-all zero (x ∷ xs) h = absurd (omega arith)
drop-all (suc n) [] h = refl
drop-all (suc n) (x ∷ xs) h = drop-all n xs (omega arith)

pub str_len-string :
    (left : ℕ) (a : Bytes) (k len : ℕ)
    → k ≤ len
    → len < k + left
    → ((q : ℕ) → q < len → a q ≢ 0)
    → a len ≡ 0
    → str_len left a k ≡ ok len
unfolding str_len
str_len-string zero a k len below room inner end = absurd (omega arith)
str_len-string (suc left) a k len below room inner end = elim (Bool-cases (k == len)) [
  | inl e ↦ rw (str_len, ==_true (a k) 0 (ap a (ground arith) ∙ end)) (ap ok (ground arith))
  | inr e ↦
      rw (str_len, ==_false (a k) 0 (inner k (ground arith)))
        (str_len-string left a (k + 1) len (ground arith) (omega arith) inner end)
]

module _ {C : Type 0} (cb : C → ℕ → C × Bool) {closure' : C} (closure : C) (x : ℕ)
    (xs : List ℕ) where
  pub visit_all-goes :
      cb closure x ≡ (closure', true)
      → visit_all some cb (x ∷ xs) closure ≡ visit_all some cb xs closure'
  unfolding visit_all visit
  visit_all-goes says = rw (visit_all, visit, says) refl

  pub visit_all-stops :
      cb closure x ≡ (closure', false) → visit_all some cb (x ∷ xs) closure ≡ (closure', false)
  unfolding visit_all visit
  visit_all-stops says = rw (visit_all, visit, says) refl

module _ (dir_emit : DirContext → Entry → Bool) where
  -- One entry after the other is emitted, until there is no room for one.
  abbrev pub emit_all : DirContext → List Kid → DirContext
  emit_all ctx [] = ctx
  emit_all ctx (kid ∷ kids) =
      let rest =
        emit_all (record { pos = ctx.pos + 1; emitted = entry_of kid ∷ ctx.emitted }) kids in
      if dir_emit ctx (entry_of kid) then rest else ctx

module _ (kernel : Kernel) (frame : Bytes) (fuel : Fuel)
    (dir_emit : DirContext → Entry → Bool) where
  -- What the callback makes of an entry at the position of the context.
  pub iterate_cb-emits :
      (ctx : DirContext) (pos : ℕ) (cache : Cache) (kid : Kid) (room : Bool)
      → IsKid kernel cache kid
      → pos ≡ ctx.pos
      → dir_emit ctx (entry_of kid) ≡ room
      → iterate_cb kernel frame fuel dir_emit (ctx, pos) kid.ino kid.live.inode
        ≡ ok (
          (
            if room
                then record { pos = ctx.pos + 1; emitted = entry_of kid ∷ ctx.emitted }
                else ctx,
            pos + 1,
          ),
          room,
        )
  unfolding iterate_cb
  iterate_cb-emits ctx pos cache kid room is here says =
      rw
        (
          iterate_cb,
          str_len-string name_max kid.live.inode.name 0 kid.len (omega arith)
              (omega (arith, is.fits)) is.inner is.end,
          ==_true pos ctx.pos here,
          says,
        )
        refl

  pub iterate_cb-skips :
      (ctx : DirContext) (pos : ℕ) (cache : Cache) (kid : Kid)
      → IsKid kernel cache kid
      → pos ≢ ctx.pos
      → iterate_cb kernel frame fuel dir_emit (ctx, pos) kid.ino kid.live.inode
        ≡ ok ((ctx, pos + 1), true)
  unfolding iterate_cb
  iterate_cb-skips ctx pos cache kid is apart =
      rw
        (
          iterate_cb,
          str_len-string name_max kid.live.inode.name 0 kid.len (omega arith)
              (omega (arith, is.fits)) is.inner is.end,
          ==_false pos ctx.pos apart,
        )
        refl
