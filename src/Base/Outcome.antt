-- ===== src/Base/Outcome.antt =====
-- Go's (value, error) results: a value, or the error that is returned in its place.
use tachyon_core.Base.{Bool, true, false, ◌≡◌, refl, ◌⊎◌, inl, inr, arith}

pub data Outcome {ℓ κ} (E : Type ℓ) (A : Type κ) : Type (ℓ ⊔ κ) where
  ok : A → Outcome E A
  err : E → Outcome E A

-- `if err != nil { return err }` after a call.
infixl 5 ◌>>=◌ ◌>>◌
abbrev pub ◌>>=◌ {ℓ κ μ} :
    {E : Type ℓ} {A : Type κ} {B : Type μ} → Outcome E A → (A → Outcome E B) → Outcome E B
ok a >>= f = f a
err e >>= f = err e

abbrev pub ◌>>◌ {ℓ κ} : {E : Type ℓ} {B : Type κ} → Outcome E (Unit {0}) → Outcome E B → Outcome E B
m >> k = m >>= λ _. k

-- `if bad { return e }`.
abbrev pub reject {ℓ} : {E : Type ℓ} → Bool → E → Outcome E (Unit {0})
reject true e = err e
reject false e = ok tt

pub ok-injective {ℓ κ} :
    {E : Type ℓ} {A : Type κ} {a b : A} → ◌≡◌ {A = Outcome E A} (ok a) (ok b) → a ≡ b
ok-injective h = cc

-- To split on the result of a call and keep the equation.
pub Outcome-cases {ℓ κ} :
    {E : Type ℓ} {A : Type κ} (o : Outcome E A) → ((a : A) × (o ≡ ok a)) ⊎ ((e : E) × (o ≡ err e))
Outcome-cases (ok a) = inl (a, refl)
Outcome-cases (err e) = inr (e, refl)

-- A check that stands before a success let it through.
pub reject-inv {ℓ κ} :
    {E : Type κ} {A : Type ℓ} (b : Bool) (e : E) (r : Outcome E A) (a : A)
    → (reject b e >> r) ≡ ok a
    → (b ≡ false) × (r ≡ ok a)
reject-inv false e r a h = (refl, h)
reject-inv true e r a h = absurd (ground arith)

-- What came out of a chain passed its first call.
pub bind-inv {ℓ κ μ} :
    {E : Type ℓ} {A : Type κ} {B : Type μ} (o : Outcome E A) (f : A → Outcome E B) (b : B)
    → (o >>= f) ≡ ok b
    → (a : A) × ((o ≡ ok a) × (f a ≡ ok b))
bind-inv (ok a) f b h = (a, (refl, h))
bind-inv (err e) f b h = absurd (ground arith)
