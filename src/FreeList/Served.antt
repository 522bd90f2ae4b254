-- ===== src/FreeList/Served.antt =====
-- What a component that allocates does to the list: some allocations, one after the other.
use spfs.Base.{ℕ, ◌≡◌, refl, ap, ◌∙◌, List, [], ◌∷◌, ◌++◌}
use spfs.FreeList.{FreeList, free_alloc}
use spfs.FreeList.Alloc.{serve}

-- The list `list'` is what is left of `list` behind some allocations.
pub record Served (list list' : FreeList) : Type 0 where
  pub requests : List ℕ
  pub served : (serve list requests).0 ≡ list'

serve-append :
    (list : FreeList) (xs ys : List ℕ) → (serve list (xs ++ ys)).0 ≡ (serve (serve list xs).0 ys).0
unfolding serve
serve-append list [] ys = refl
serve-append list (n ∷ xs) ys = serve-append (free_alloc list n).0 xs ys

pub Served-refl : (list : FreeList) → Served list list
unfolding serve
Served-refl list = record { requests = []; served = refl }

pub Served-trans : {a b c : FreeList} → Served a b → Served b c → Served a c
Served-trans {a} {b} {c} first second = record {
  requests = first.requests ++ second.requests;
  served =
      serve-append a first.requests second.requests
      ∙ ap (λ list. (serve list second.requests).0) first.served
      ∙ second.served;
}

pub Served-one : (list : FreeList) (n : ℕ) → Served list (free_alloc list n).0
unfolding serve
Served-one list n = record { requests = n ∷ []; served = refl }
