-- ===== src/Config/Served.antt =====
-- Which tools daemon/cmd/daemon/main.go enables.
use host_health_mcp.Base.{
  ◌≡◌, refl, subst, Bytes, codes, text_eq, text_eq_refl, Bool, true, false, ◌||◌, List, [], ◌∷◌,
  ◌++◌, inl, inr, All, arith, Bool-cases,
}
use host_health_mcp.Base.Result.{ok}
use host_health_mcp.Config.Units.{is_in}
use host_health_mcp.Config.Startup.{
  Checks, is_registered, unknown_of, with_manifest, unless_unknown, enabled_of,
}

or_true : (b : Bool) → (b || true) ≡ true
or_true true = refl
or_true false = refl

module _ (k : Checks) where
  unknown_of-nil : (ts : List Bytes) → unknown_of k ts ≡ [] → All (λ t. is_registered k t ≡ true) ts
  unfolding unknown_of
  unknown_of-nil [] h = tt
  unknown_of-nil (t ∷ ts) h = elim (Bool-cases (is_registered k t)) [
    | inl known ↦ (known, unknown_of-nil ts (ground (arith, h, known)))
    | inr unknown ↦ absurd (ground (arith, h, unknown))
  ]

  is_in-append : (x : Bytes) (xs : List Bytes) → is_in x (xs ++ x ∷ []) ≡ true
  unfolding is_in
  is_in-append x [] = rw (text_eq_refl x) refl
  is_in-append x (y ∷ ys) = rw (is_in-append x ys) (or_true (text_eq x y))

  snoc_registered :
      (xs : List Bytes) (x : Bytes)
      → All (λ t. is_registered k t ≡ true) xs
      → is_registered k x ≡ true
      → All (λ t. is_registered k t ≡ true) (xs ++ x ∷ [])
  snoc_registered [] x all h = (h, tt)
  snoc_registered (y ∷ ys) x all h = (all.0, snoc_registered ys x all.1 h)

  manifest_registered : is_registered k (codes "manifest") ≡ true
  unfolding is_in text_eq
  manifest_registered = refl

  -- The tools that are served are registered, and "manifest" is one.
  abbrev pub IsServed : List Bytes → Type 0
  IsServed tools =
      All (λ t. is_registered k t ≡ true) tools × (is_in (codes "manifest") tools ≡ true)

  with_manifest-IsServed :
      (ts : List Bytes) → All (λ t. is_registered k t ≡ true) ts → IsServed (with_manifest k ts)
  with_manifest-IsServed ts all = elim (Bool-cases (is_in (codes "manifest") ts)) [
    | inl there ↦ rw there (all, there)
    | inr missing ↦ rw missing (
      snoc_registered ts (codes "manifest") all manifest_registered,
      is_in-append (codes "manifest") ts,
    )
  ]

  registry-registered :
      (xs ys : List Bytes)
      → ((t : Bytes) → is_in t ys ≡ true → is_in t xs ≡ true)
      → All (λ t. is_in t xs ≡ true) ys
  unfolding is_in
  registry-registered xs [] h = tt
  registry-registered xs (y ∷ ys) h = (
    h y (rw (text_eq_refl y) refl),
    registry-registered xs ys (λ t m. h t (rw m (or_true (text_eq t y)))),
  )

  unless_unknown-nil :
      (ts us tools : List Bytes)
      → unless_unknown k ts us ≡ ok tools
      → (us ≡ []) × (with_manifest k ts ≡ tools)
  unless_unknown-nil ts [] tools h = (refl, ground (arith, h))
  unless_unknown-nil ts (u ∷ us) tools h = absurd (ground (arith, h))

  pub enabled_of-IsServed : (ts tools : List Bytes) → enabled_of k ts ≡ ok tools → IsServed tools
  unfolding enabled_of
  enabled_of-IsServed [] tools h =
      subst (λ (ts : List Bytes). IsServed ts) (ground (arith, h))
        (
          registry-registered (codes "manifest" ∷ k.registered) (codes "manifest" ∷ k.registered)
              (λ t m. m),
          manifest_registered,
        )
  enabled_of-IsServed (t ∷ ts) tools h =
      let none_unknown = unless_unknown-nil (t ∷ ts) (unknown_of k (t ∷ ts)) tools h in
      subst (λ (us : List Bytes). IsServed us) none_unknown.1
        (with_manifest-IsServed (t ∷ ts) (unknown_of-nil (t ∷ ts) none_unknown.0))
