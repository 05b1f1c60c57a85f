-- ===== src/Base/Outcomes.antt =====
-- The outcome of a Go function that returns an error: a value, an error, or a run-time panic.
use mathlib.Core.Path.{◌≡◌, refl, ap}
use mathlib.Core.Logic.{◌⊎◌, inl, inr}
use mathlib.Core.Bool.{Bool, true, false}
use mathlib.Core.Option.{Option, none, some}

pub data Outcome {ℓ κ} (E : Type ℓ) (A : Type κ) : Type (ℓ ⊔ κ) where
  ok : A → Outcome E A
  err : E → Outcome E A
  panic : Outcome E A

infixl 5 ◌>>=◌ ◌>>◌
abbrev pub ◌>>=◌ {ℓ κ} :
    {E : Type 0} {A : Type ℓ} {B : Type κ} → Outcome E A → (A → Outcome E B) → Outcome E B
panic >>= next = panic
err e >>= next = err e
ok a >>= next = next a

abbrev pub ◌>>◌ {ℓ} : {E : Type 0} {B : Type ℓ} → Outcome E (Unit {0}) → Outcome E B → Outcome E B
m >> k = m >>= λ _. k

module _ {E : Type 0} where
  -- `if reject { return err }`
  abbrev pub reject_if : Bool → E → Outcome E (Unit {0})
  reject_if true e = err e
  reject_if false e = ok tt

  -- A call that returns a value or an error.
  abbrev pub or_err {ℓ} : {A : Type ℓ} → Option A → E → Outcome E A
  or_err none e = err e
  or_err (some a) e = ok a

  -- An index expression: out of range is a panic.
  abbrev pub or_panic {ℓ} : {A : Type ℓ} → Option A → Outcome E A
  or_panic none = panic
  or_panic (some a) = ok a

pub Outcome-cases {ℓ κ} :
    {E : Type ℓ} {A : Type κ} (r : Outcome E A)
    → ((a : A) × (r ≡ ok a)) ⊎ ((e : E) × (r ≡ err e)) ⊎ (r ≡ panic)
Outcome-cases (ok a) = inl (a, refl)
Outcome-cases (err e) = inr (inl (e, refl))
Outcome-cases panic = inr (inr refl)

-- A sequence of two steps that ends well had both end well.
pub >>=-eq-ok {ℓ κ} :
    {E : Type 0} {A : Type ℓ} {B : Type κ} (step : Outcome E A) (next : A → Outcome E B) {b : B}
    → (step >>= next) ≡ ok b
    → (a : A) × (step ≡ ok a) × (next a ≡ ok b)
>>=-eq-ok panic next ended = cc
>>=-eq-ok (err _) next ended = cc
>>=-eq-ok (ok a) next ended = (a, refl, ended)

pub ok-injective {ℓ κ} :
    {E : Type ℓ} {A : Type κ} {a b : A} → ◌≡◌ {A = Outcome E A} (ok a) (ok b) → a ≡ b
ok-injective {E} {A} {a} e = ap (value_or a) e
  where
    value_or : A → Outcome E A → A
    value_or d (ok x) = x
    value_or d (err _) = d
    value_or d panic = d

-- A result that is there was there before.
pub or_err-some {ℓ} :
    {E : Type 0} {A : Type ℓ} (o : Option A) (e : E) {a : A} → or_err o e ≡ ok a → o ≡ some a
or_err-some none e h = absurd (cc)
or_err-some (some a) e h = ap some (ok-injective h)

pub or_panic-some {ℓ} :
    {E : Type 0} {A : Type ℓ} (o : Option A) {a : A}
    → ◌≡◌ {A = Outcome E A} (or_panic o) (ok a)
    → o ≡ some a
or_panic-some none h = absurd (cc)
or_panic-some (some a) h = ap some (ok-injective h)
