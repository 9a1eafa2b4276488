-- ===== src/Firewall/Rows.antt =====
-- Predicates on the rows that the maps of `FirewallInspect` hold: what inserting, changing, sorting
-- and listing them keep.
use host_health_mcp.Base.{
  ◌≡◌, Bytes, text_eq, Bool, some, List, [], ◌∷◌, ◌++◌, inl, inr, arith, All, Option-cases,
  Bool-cases, subst,
}
use host_health_mcp.Base.Eq.{bytes_eq}
use host_health_mcp.Base.Assoc
use host_health_mcp.Firewall.Walk.{adjust}
use host_health_mcp.Firewall.Inspect.{insert_row, sort_rows, values}

module _ {A : Type 0} (P : A → Type 0) where
  pub All-append : (xs ys : List A) → All P xs → All P ys → All P (xs ++ ys)
  All-append [] ys h k = k
  All-append (x ∷ xs) ys h k = (h.0, All-append xs ys h.1 k)

  All-insert_row :
      (less : A → A → Bool) (v : A) (ws : List A) → P v → All P ws → All P (insert_row less v ws)
  unfolding insert_row
  All-insert_row less v [] h k = (h, tt)
  All-insert_row less v (w ∷ ws) h k = ground (arith, All-insert_row less v ws h k.1)

  pub All-sort_rows : (less : A → A → Bool) (vs : List A) → All P vs → All P (sort_rows less vs)
  unfolding sort_rows
  All-sort_rows less [] h = tt
  All-sort_rows less (v ∷ vs) h = All-insert_row less v _ h.0 (All-sort_rows less vs h.1)

  pub All-insert :
      (k : Bytes) (v : A) (m : List (Bytes × A))
      → P v
      → All P (values m)
      → All P (values (Assoc.insert k v m))
  unfolding Assoc.insert
  All-insert k v [] h a = (h, tt)
  All-insert k v ((j, w) ∷ m) h a = ground (arith, All-insert k v m h a.1)

  pub All-lookup :
      (k : Bytes) (v : A) (m : List (Bytes × A))
      → All P (values m)
      → Assoc.lookup k m ≡ some v
      → P v
  unfolding Assoc.lookup
  All-lookup k v [] a h = ground (arith, h)
  All-lookup k v ((j, w) ∷ m) a h = elim (Bool-cases (text_eq j k)) [
    | inl same ↦ subst P (ground (arith, same, h)) a.0
    | inr other ↦ All-lookup k v m a.1 (ground (arith, other, h))
  ]

  pub All-adjust :
      (k : Bytes) (f : A → A) (m : List (Bytes × A))
      → ((v : A) → P v → P (f v))
      → All P (values m)
      → All P (values (adjust k f m))
  unfolding adjust
  All-adjust k f m keeps a = elim (Option-cases (Assoc.lookup k m)) [
    | inl absent ↦ rw (absent, values, All) a
    | inr (v, here) ↦
        rw (here, values, All) (All-insert k (f v) m (keeps v (All-lookup k v m a here)) a)
  ]
