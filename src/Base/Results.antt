-- ===== src/Base/Results.antt =====
-- The outcome of a C function that can return early with a code, stop at a BUG_ON or an access
-- outside its buffer, or loop for longer than the fuel that it is given.
use mathlib.Core.Path.{◌≡◌, refl, subst}
use mathlib.Core.Logic.{◌⊎◌, inl, inr}
use mathlib.Core.Bool.{Bool, true, false}
use spfs.Base.Tests.{if◌then◌else◌}
use mathlib.Core.Option.{Option, none, some}

pub data Res {ℓ} (E A : Type ℓ) : Type ℓ where
  ok : A → Res E A
  err : E → Res E A
  bug : Res E A
  out_of_fuel : Res E A

module _ {ℓ} {E A B : Type ℓ} where
  infixl 5 ◌>>=◌
  abbrev pub ◌>>=◌ : Res E A → (A → Res E B) → Res E B
  ok a >>= f = f a
  err e >>= f = err e
  bug >>= f = bug
  out_of_fuel >>= f = out_of_fuel

-- `if (!f(...)) { return code; }`: a refusal becomes the caller's own early return.
abbrev pub or_return {ℓ} : {D E A : Type ℓ} → E → Res D A → Res E A
or_return e (ok a) = ok a
or_return e (err d) = err e
or_return e bug = bug
or_return e out_of_fuel = out_of_fuel

-- `if (!p) { return code; }` for a pointer.
abbrev pub or_null {ℓ} : {E A : Type ℓ} → E → Option A → Res E A
or_null e none = err e
or_null e (some a) = ok a

-- `BUG_ON(test)`.
abbrev pub bug_on {ℓ} : {E A : Type ℓ} → Bool → Res E A → Res E A
bug_on true r = bug
bug_on false r = r

-- `if (test) { return code; }`.
abbrev pub return_if {ℓ} : {E A : Type ℓ} → Bool → E → Res E A → Res E A
return_if true e r = err e
return_if false e r = r

-- Where the whole chain succeeds, its first step did, and the rest of it took over from there.
pub >>=-succeeds {ℓ} :
    {E A B : Type ℓ} {last : B} (step : Res E A) (rest : A → Res E B)
    → (step >>= rest) ≡ ok last
    → (mid : A) × (rest mid ≡ ok last) × (step ≡ ok mid)
>>=-succeeds out_of_fuel rest whole = cc
>>=-succeeds bug rest whole = cc
>>=-succeeds (err e) rest whole = cc
>>=-succeeds (ok mid) rest whole = (mid, whole, refl)

pub Option-cases {ℓ} : {A : Type ℓ} → (x : Option A) → (x ≡ none) ⊎ ((a : A) × (x ≡ some a))
Option-cases none = inl refl
Option-cases (some a) = inr (a, refl)

-- What a call returns, if it returns a value, is as `P` says.
abbrev pub Returns {ℓ κ} : {E A : Type ℓ} → (A → Type κ) → Res E A → Type κ
Returns P (ok a) = P a
Returns P (err e) = Unit
Returns P bug = Unit
Returns P out_of_fuel = Unit

pub Returns-bind {ℓ κ μ} :
    {E A B : Type ℓ} (P : A → Type κ) (Q : B → Type μ) (r : Res E A) (f : A → Res E B)
    → Returns P r
    → ((a : A) → P a → Returns Q (f a))
    → Returns Q (r >>= f)
Returns-bind P Q (ok a) f h k = k a h
Returns-bind P Q (err e) f h k = tt
Returns-bind P Q bug f h k = tt
Returns-bind P Q out_of_fuel f h k = tt

pub Returns-after {ℓ μ} :
    {E A B : Type ℓ} (Q : B → Type μ) (r : Res E A) (f : A → Res E B)
    → ((a : A) → Returns Q (f a))
    → Returns Q (r >>= f)
Returns-after Q (ok a) f k = k a
Returns-after Q (err e) f k = tt
Returns-after Q bug f k = tt
Returns-after Q out_of_fuel f k = tt

pub Returns-bug_on {ℓ μ} :
    {E B : Type ℓ} (Q : B → Type μ) (test : Bool) (r : Res E B)
    → Returns Q r
    → Returns Q (bug_on test r)
Returns-bug_on Q true r h = tt
Returns-bug_on Q false r h = h

pub Returns-if {ℓ μ} :
    {E B : Type ℓ} (Q : B → Type μ) (test : Bool) (r s : Res E B)
    → Returns Q r
    → Returns Q s
    → Returns Q (if test then r else s)
Returns-if Q true r s h k = h
Returns-if Q false r s h k = k

pub Returns-option {ℓ κ μ} :
    {A : Type κ} {E B : Type ℓ} (Q : B → Type μ) (x : Option A) (r : Res E B) (f : A → Res E B)
    → Returns Q r
    → ((a : A) → Returns Q (f a))
    → Returns Q (elim x [ none ↦ r | some a ↦ f a ])
Returns-option Q none r f h k = h
Returns-option Q (some a) r f h k = k a

pub Returns-map {ℓ κ μ} :
    {E A : Type ℓ} (P : A → Type κ) (Q : A → Type μ) (r : Res E A)
    → ((a : A) → P a → Q a)
    → Returns P r
    → Returns Q r
Returns-map P Q (ok a) f h = f a h
Returns-map P Q (err e) f h = tt
Returns-map P Q bug f h = tt
Returns-map P Q out_of_fuel f h = tt

pub Returns-ok {ℓ κ} :
    {E A : Type ℓ} (P : A → Type κ) {r : Res E A} {a : A} → Returns P r → r ≡ ok a → P a
Returns-ok P h e = subst (Returns P) e h

pub Res-cases {ℓ} :
    {E A : Type ℓ} (r : Res E A)
    → ((a : A) × (r ≡ ok a)) ⊎ ((e : E) × (r ≡ err e)) ⊎ (r ≡ bug) ⊎ (r ≡ out_of_fuel)
Res-cases (ok a) = inl (a, refl)
Res-cases (err e) = inr (inl (e, refl))
Res-cases bug = inr (inr (inl refl))
Res-cases out_of_fuel = inr (inr (inr refl))
