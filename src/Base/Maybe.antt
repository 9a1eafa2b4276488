-- ===== src/Base/Maybe.antt =====
-- `do` blocks over Option: a value, or the `false` or ignored error of a Go helper.
use host_health_mcp.Base.{Bool, Option, none, some, if◌then◌else◌}

infixl 10 ◌>>=◌ ◌>>◌
abbrev pub ◌>>=◌ {ℓ κ} : {A : Type ℓ} {B : Type κ} → Option A → (A → Option B) → Option B
none >>= f = none
some a >>= f = f a

abbrev pub ◌>>◌ {ℓ κ} : {A : Type ℓ} {B : Type κ} → Option A → Option B → Option B
m >> k = m >>= λ _. k

-- Goes on only if a test holds.
abbrev pub only_if : Bool → Option (Unit {0})
only_if b = if b then some tt else none

abbrev pub or_else {ℓ} : {A : Type ℓ} → Option A → Option A → Option A
or_else none o = o
or_else (some a) _ = some a
