-- ===== src/Base/Assoc.antt =====
-- Go maps as association lists, for code that reads `len` of a map or ranges over it.
use host_health_mcp.Base.{
  suc, ◌≤◌, ◌≡◌, refl, Bool, true, false, Option, none, some, List, [], ◌∷◌, arith, length,
  if◌then◌else◌,
}
use host_health_mcp.Base.Eq.{Eq}

-- A found value, if it is not to be dropped.
abbrev pub unless {κ} : {A : Type κ} → (A → Bool) → Option A → Option A
unless drop none = none
unless drop (some v) = if drop v then none else some v

module _ {ℓ κ} {K : Type ℓ} {V : Type κ} ⦃e : Eq K⦄ where
  unfoldable pub lookup : K → List (K × V) → Option V
  lookup k [] = none
  lookup k ((j, v) ∷ m) = if e.beq j k then some v else lookup k m

  unfoldable pub has_key : K → List (K × V) → Bool
  has_key k [] = false
  has_key k ((j, v) ∷ m) = if e.beq j k then true else has_key k m

  -- `m[k] = v`
  unfoldable pub insert : K → V → List (K × V) → List (K × V)
  insert k v [] = (k, v) ∷ []
  insert k v ((j, w) ∷ m) = if e.beq j k then (k, v) ∷ m else (j, w) ∷ insert k v m

  -- The entries that a loop with `if drop(v) { delete(m, k) }` leaves.
  unfoldable pub sweep : (V → Bool) → List (K × V) → List (K × V)
  sweep drop [] = []
  sweep drop ((j, v) ∷ m) = let rest = sweep drop m in if drop v then rest else (j, v) ∷ rest

  pub lookup-insert :
      (k j : K) (v : V) (m : List (K × V))
      → lookup j (insert k v m) ≡ (if e.beq k j then some v else lookup j m)
  unfolding lookup insert
  lookup-insert k j v [] = refl
  lookup-insert k j v ((i, w) ∷ m) =
      ground (arith, e.beq_iff k j, e.beq_iff i k, e.beq_iff i j, lookup-insert k j v m)

  pub length-insert :
      (k : K) (v : V) (m : List (K × V))
      → length (insert k v m) ≡ (if has_key k m then length m else suc (length m))
  unfolding insert has_key
  length-insert k v [] = refl
  length-insert k v ((j, w) ∷ m) = ground (arith, length-insert k v m)

  pub length-sweep : (drop : V → Bool) (m : List (K × V)) → length (sweep drop m) ≤ length m
  unfolding sweep
  length-sweep drop [] = omega arith
  length-sweep drop ((j, v) ∷ m) = ground (arith, length-sweep drop m)

  -- Every key is held once.
  abbrev pub Distinct : List (K × V) → Type 0
  Distinct [] = Unit {0}
  Distinct ((j, v) ∷ m) = (has_key j m ≡ false) × Distinct m

  has_key-insert :
      (k j : K) (v : V) (m : List (K × V))
      → has_key j (insert k v m) ≡ (if e.beq k j then true else has_key j m)
  unfolding has_key insert
  has_key-insert k j v [] = refl
  has_key-insert k j v ((i, w) ∷ m) =
      ground (arith, e.beq_iff k j, e.beq_iff i k, e.beq_iff i j, has_key-insert k j v m)

  has_key-sweep :
      (drop : V → Bool) (k : K) (m : List (K × V))
      → has_key k m ≡ false
      → has_key k (sweep drop m) ≡ false
  unfolding has_key sweep
  has_key-sweep drop k [] h = refl
  has_key-sweep drop k ((i, w) ∷ m) h = ground (arith, has_key-sweep drop k m)

  pub lookup-absent : (k : K) (m : List (K × V)) → has_key k m ≡ false → lookup k m ≡ none
  unfolding has_key lookup
  lookup-absent k [] h = refl
  lookup-absent k ((i, w) ∷ m) h = ground (arith, lookup-absent k m)

  pub Distinct-insert : (k : K) (v : V) (m : List (K × V)) → Distinct m → Distinct (insert k v m)
  unfolding insert has_key
  Distinct-insert k v [] d = (refl, tt)
  Distinct-insert k v ((i, w) ∷ m) d =
      ground
        (arith, e.beq_iff i k, e.beq_iff k i, has_key-insert k i v m, Distinct-insert k v m d.1)

  pub Distinct-sweep : (drop : V → Bool) (m : List (K × V)) → Distinct m → Distinct (sweep drop m)
  unfolding sweep
  Distinct-sweep drop [] d = tt
  Distinct-sweep drop ((i, w) ∷ m) d =
      ground (arith, has_key-sweep drop i m, Distinct-sweep drop m d.1)

  pub lookup-sweep :
      (drop : V → Bool) (k : K) (m : List (K × V))
      → Distinct m
      → lookup k (sweep drop m) ≡ unless drop (lookup k m)
  unfolding lookup sweep
  lookup-sweep drop k [] d = refl
  lookup-sweep drop k ((i, w) ∷ m) d =
      ground (arith, lookup-sweep drop k m d.1, e.beq_iff i k, lookup-absent k m, d.0)
