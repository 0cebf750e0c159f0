-- ===== src/Prelude/Errors.antt =====
-- A Go pair of a value and an error: `ok` where the error is nil.
use mathlib.Core.Path.{◌≡◌, refl, subst}
use mathlib.Core.Logic.{◌⊎◌, inl, inr}
use mathlib.Core.Bool.{Bool, true, false}
use naabu.Prelude.Tests.{if◌then◌else◌}

pub data Outcome {ℓ κ} (E : Type ℓ) (A : Type κ) : Type (ℓ ⊔ κ) where
  ok : A → Outcome E A
  err : E → Outcome E A

-- `if err != nil { return nil, err }` between two steps.
infixl 5 ◌>>=◌
abbrev pub ◌>>=◌ {ℓ κ μ} :
    {E : Type ℓ} {A : Type κ} {B : Type μ} → Outcome E A → (A → Outcome E B) → Outcome E B
err failure >>= next = err failure
ok value >>= next = next value

pub ok-injective {ℓ κ} :
    {E : Type ℓ} {A : Type κ} {a b : A} → ◌≡◌ {A = Outcome E A} (ok a) (ok b) → a ≡ b
ok-injective e = cc

-- `fmt.Errorf("…: %s", err)`
abbrev pub wrap {ℓ κ} : {E : Type ℓ} {A : Type κ} → (E → E) → Outcome E A → Outcome E A
wrap f (ok a) = ok a
wrap f (err e) = err (f e)

pub >>=-eq-ok {ℓ κ μ} :
    {B : Type μ} {A : Type κ} {E : Type ℓ} (first : Outcome E A) (next : A → Outcome E B) {last : B}
    → (first >>= next) ≡ ok last
    → (middle : A) × (first ≡ ok middle) × (next middle ≡ ok last)
>>=-eq-ok (err e) next done = cc
>>=-eq-ok (ok middle) next done = (middle, refl, done)

pub wrap-eq-ok {ℓ κ} :
    {E : Type ℓ} {A : Type κ} (f : E → E) (m : Outcome E A) {a : A} → wrap f m ≡ ok a → m ≡ ok a
wrap-eq-ok f (ok a) h = h
wrap-eq-ok f (err e) h = cc

-- What holds of the value, if there is one.
pub data Ensures {ℓ κ μ} {E : Type ℓ} {A : Type κ} (P : A → Type μ)
    : Outcome E A → Type (ℓ ⊔ κ ⊔ μ) where
  returned : {a : A} → P a → Ensures P (ok a)
  failed : {e : E} → Ensures P (err e)

module _ {ℓ κ μ} {E : Type ℓ} {A : Type κ} {P : A → Type μ} where
  pub Ensures-bind {ν ρ} :
      {B : Type ν} {Q : B → Type ρ} {m : Outcome E A} {f : A → Outcome E B}
      → Ensures P m
      → ((a : A) → P a → Ensures Q (f a))
      → Ensures Q (m >>= f)
  Ensures-bind (returned p) k = k _ p
  Ensures-bind failed k = failed

  pub Ensures-wrap : {m : Outcome E A} (f : E → E) → Ensures P m → Ensures P (wrap f m)
  Ensures-wrap f (returned p) = returned p
  Ensures-wrap f failed = failed

  pub Ensures-if :
      {x y : Outcome E A} (b : Bool)
      → (b ≡ true → Ensures P x)
      → (b ≡ false → Ensures P y)
      → Ensures P (if b then x else y)
  Ensures-if true hx hy = hx refl
  Ensures-if false hx hy = hy refl

  pub Ensures-ok : {m : Outcome E A} {a : A} → Ensures P m → m ≡ ok a → P a
  Ensures-ok (returned p) e = subst P (ok-injective e) p
  Ensures-ok failed e = cc

pub Outcome-cases {ℓ κ} :
    {E : Type ℓ} {A : Type κ} (m : Outcome E A) → ((a : A) × (m ≡ ok a)) ⊎ ((e : E) × (m ≡ err e))
Outcome-cases (ok a) = inl (a, refl)
Outcome-cases (err e) = inr (e, refl)
