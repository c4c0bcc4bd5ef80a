-- ===== src/Prelude/Outcome.antt =====
-- What a Go function that returns (A, error) can do: return a value, return an error, or panic.

use mathlib.Core.Path.{◌≡◌, refl, sym, subst}

pub data Outcome {ℓ κ} (E : Type ℓ) (A : Type κ) : Type (ℓ ⊔ κ) where
  ok : A → Outcome E A
  err : E → Outcome E A
  panic : Outcome E A

infixl 5 ◌>>=◌ ◌>>◌
abbrev pub ◌>>=◌ {ℓ κ μ} :
    {E : Type ℓ} {A : Type κ} {B : Type μ} → Outcome E A → (A → Outcome E B) → Outcome E B
panic >>= next = panic
err e >>= next = err e
ok a >>= next = next a

abbrev pub ◌>>◌ {ℓ κ} : {E : Type ℓ} {B : Type κ} → Outcome E (Unit {0}) → Outcome E B → Outcome E B
first >> second = first >>= λ _. second

-- fmt.Errorf("...: %w", err)
abbrev pub wrap_err {ℓ κ μ} :
    {E : Type ℓ} {F : Type κ} {A : Type μ} → (E → F) → Outcome E A → Outcome F A
wrap_err f (ok a) = ok a
wrap_err f (err e) = err (f e)
wrap_err f panic = panic

-- A sequence that succeeds has a first part that succeeds.
pub >>=-eq-ok {ℓ κ μ} :
    {E : Type ℓ} {A : Type κ} {B : Type μ} (first : Outcome E A) (next : A → Outcome E B)
    {result : B}
    → (first >>= next) ≡ ok result
    → (a : A) × (first ≡ ok a) × (next a ≡ ok result)
>>=-eq-ok panic next h = cc
>>=-eq-ok (err e) next h = cc
>>=-eq-ok (ok a) next h = (a, refl, h)

pub ok_inj {ℓ κ} : {E : Type ℓ} {A : Type κ} {a b : A} → ◌≡◌ {A = Outcome E A} (ok a) (ok b) → a ≡ b
ok_inj h = cc

-- A value is returned, and it has the property.
abbrev pub Gives {ℓ κ μ} : {E : Type ℓ} {A : Type κ} → (A → Type μ) → Outcome E A → Type (ℓ ⊔ κ ⊔ μ)
Gives {A} P r = (a : A) × (r ≡ ok a) × P a

pub Gives-bind {ℓ κ μ ν ρ} :
    {E : Type ℓ} {A : Type κ} {B : Type μ} {P : A → Type ν} {Q : B → Type ρ} (r : Outcome E A)
    (f : A → Outcome E B)
    → Gives P r
    → ((a : A) → P a → Gives Q (f a))
    → Gives Q (r >>= f)
Gives-bind {Q} (ok a) f (b, e, p) k = subst (λ c. Gives Q (f c)) (sym (ok_inj e)) (k b p)
Gives-bind (err u) f (b, e, p) k = cc
Gives-bind panic f (b, e, p) k = cc
