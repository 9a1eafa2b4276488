-- ===== src/Helper/Registry.antt =====
-- `Registry` of daemon/internal/helper/dispatch/dispatch.go, for any type of handlers.
-- A panic of `Register` is an error here; the lock around the map leaves no trace.
use text.Mathlib.Text.{◌==◌ as str_eq}
use text.Mathlib.TextEquality.{eq_iff}
use host_health_mcp.Base.{
  String, Bool, true, false, not, ◌&&◌, Option, none, some, List, [], ◌∷◌, ◌≡◌, refl, ap, arith,
  if◌then◌else◌,
}
use host_health_mcp.Base.Result.{Result, ok, err, ◌>>=◌, bind-eq-ok}
use host_health_mcp.Helper.Ops.{all_ops, is_known_op, mem_op}

pub data Panic : Type 0 where
  unknown_op duplicate_op : String → Panic

abbrev pub Registry {ℓ} : Type ℓ → Type ℓ
Registry H = String → Option H

abbrev pub new {ℓ} : {H : Type ℓ} → Registry H
new op = none

abbrev pub registered {ℓ} : {H : Type ℓ} → Option H → Bool
registered none = false
registered (some _) = true

module _ {ℓ} {H : Type ℓ} where
  unfoldable pub lookup : String → Registry H → Option H
  lookup op r = r op

  unfoldable pub register : String → H → Registry H → Result Panic (Registry H)
  register op h r =
      if not (is_known_op op)
      then err (unknown_op op)
      else if registered (r op)
      then err (duplicate_op op)
      else ok (λ o. if str_eq op o then some h else r o)

  -- The calls of `Register` that build a table.
  unfoldable pub register_all : List (String × H) → Registry H → Result Panic (Registry H)
  register_all [] r = ok r
  register_all ((op, h) ∷ rest) r = register op h r >>= register_all rest

  registered_in : List String → Registry H → List String
  registered_in [] r = []
  registered_in (op ∷ rest) r =
      let more = registered_in rest r in if registered (r op) then op ∷ more else more

  -- `Ops`
  unfoldable pub ops : Registry H → List String
  unfolding registered_in
  ops r = registered_in all_ops r

  abbrev pub named : String → List (String × H) → Option H
  named o [] = none
  named o ((op, h) ∷ rest) = if str_eq op o then some h else named o rest

  abbrev pub or_else : Option H → Option H → Option H
  or_else none b = b
  or_else (some h) b = some h

  abbrev KnownOnly : Registry H → Type 0
  KnownOnly r = (o : String) → registered (r o) ≡ true → is_known_op o ≡ true

  register-KnownOnly :
      (op : String) (h : H) (r : Registry H) {q : Registry H}
      → register op h r ≡ ok q
      → ((o : String) → q o ≡ (if str_eq op o then some h else r o))
        × (registered (r op) ≡ false)
        × (is_known_op op ≡ true)
  unfolding register
  register-KnownOnly op h r e = (λ o. ground (arith, ap (value o) e), ground arith, ground arith)
    where
      value : String → Result Panic (Registry H) → Option H
      value o (ok q) = q o
      value o (err _) = none

  all_lookup :
      (hs : List (String × H)) (r : Registry H) {q : Registry H}
      → register_all hs r ≡ ok q
      → KnownOnly r
      → ((o : String) → q o ≡ or_else (r o) (named o hs)) × KnownOnly q
  unfolding register_all
  all_lookup [] r {q} e known =
      let same = λ (o : String). ap (value o) e in
      (
        λ o. ground (arith, same o),
        λ o h. let m : registered (r o) ≡ true = ground (arith, same o) in known o m,
      )
    where
      value : String → Result Panic (Registry H) → Option H
      value o (ok t) = t o
      value o (err _) = none
  all_lookup ((op, h) ∷ rest) r {q} e known =
      let (r', first, later) = bind-eq-ok (register op h r) (register_all rest) e in
      let (put, fresh, ok_op) = register-KnownOnly op h r first in
      let known' = λ (o : String) (m : registered (r' o) ≡ true). if_known o ok_op (put o) m in
      let (found, known_q) = all_lookup rest r' later known' in
      (λ o. ground (arith, found o, put o, fresh, eq_iff op o), known_q)
    where
      if_known :
          {a : Option H} (o : String)
          → is_known_op op ≡ true
          → a ≡ (if str_eq op o then some h else r o)
          → registered a ≡ true
          → is_known_op o ≡ true
      if_known o k p m = ground (arith, known o, eq_iff op o)

  mem_op-registered_in :
      (o : String) (ks : List String) (r : Registry H)
      → mem_op o (registered_in ks r) ≡ (mem_op o ks && registered (r o))
  unfolding mem_op registered_in
  mem_op-registered_in o [] r = refl
  mem_op-registered_in o (k ∷ ks) r = ground (arith, mem_op-registered_in o ks r, eq_iff k o)

  mem_op-ops :
      (o : String) (r : Registry H) → mem_op o (ops r) ≡ (is_known_op o && registered (r o))
  unfolding ops is_known_op
  mem_op-ops o r = mem_op-registered_in o all_ops r

  -- A table that was built without a panic holds exactly the handlers registered, each under its own
  -- token, and lists exactly the tokens registered.
  pub register_all-lookup :
      (hs : List (String × H)) {r : Registry H}
      → register_all hs new ≡ ok r
      → (o : String) → (lookup o r ≡ named o hs) × (mem_op o (ops r) ≡ registered (named o hs))
  unfolding lookup
  register_all-lookup hs {r} e o =
      let (found, known) = all_lookup hs new e (λ o m. cc) in
      (found o, ground (arith, found o, known o, mem_op-ops o r))
