-- ===== src/Base/Result.antt =====
-- A value or an error, for code that returns `(T, error)`.
use host_health_mcp.Base.{◌≡◌, refl}

pub data Result {ℓ κ} (E : Type κ) (A : Type ℓ) : Type (ℓ ⊔ κ) where
  ok : A → Result E A
  err : E → Result E A

infixl 10 ◌>>=◌
abbrev pub ◌>>=◌ {ℓ κ λ'} :
    {E : Type κ} {A : Type ℓ} {B : Type λ'} → Result E A → (A → Result E B) → Result E B
ok a >>= f = f a
err e >>= f = err e

pub bind-eq-ok {ℓ κ λ'} :
    {E : Type κ} {A : Type ℓ} {B : Type λ'} (m : Result E A) (f : A → Result E B) {b : B}
    → (m >>= f) ≡ ok b
    → (a : A) × (m ≡ ok a) × (f a ≡ ok b)
bind-eq-ok (ok a) f h = (a, refl, h)
bind-eq-ok (err e) f h = cc
