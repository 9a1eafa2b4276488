-- ===== src/Firewall/Inspect/Inline.antt =====
-- Rows and listings of `FirewallInspect` in daemon/internal/helper/ops/firewall.go, and how many elements
-- they hold.
use host_health_mcp.Base.{
  ℕ, ◌+◌, ◌≤◌, ◌≡◌, refl, ap, ◌∙◌, Bytes, text_eq, Bool, true, false, Option, none, some, List, [],
  ◌∷◌, inl, inr, arith, All, Option-cases, Bool-cases, length, if◌then◌else◌, zero, suc,
}
use host_health_mcp.Base.Eq.{bytes_eq}
use host_health_mcp.Base.Assoc
use host_health_mcp.Base.Result.{Result, ok, err}
use host_health_mcp.Helper.Deadline.{ℤ, pos, negsuc}
use host_health_mcp.Helper.Exec.{StartError}
use host_health_mcp.Helper.Ops.{Code}
use host_health_mcp.Firewall.{Std}
use host_health_mcp.Firewall.Nft.{NftEntry, NftTable, NftChain, NftRule, NftSet, set_of}
use host_health_mcp.Firewall.Render.{SetElem, SetRow, render_elements}
use host_health_mcp.Firewall.Walk.{
  Filter, Found, visit, visit_kind, walk_nft_ruleset, clamp_set_elements, firewall_hard_elem_cap,
  visit_table, visit_chain, visit_rule, visit_set,
}
use host_health_mcp.Firewall.Elements.{cap_for, first_set, listed}
use host_health_mcp.Firewall.Inspect.{insert_row, sort_rows, values}
use host_health_mcp.Firewall.Rows.{All-insert}

-- The elements of all rows.
abbrev pub inline_elements : List SetRow → ℕ
inline_elements [] = 0
inline_elements (s ∷ ss) = length s.elements + inline_elements ss

inline_elements-insert_row :
    (less : SetRow → SetRow → Bool) (v : SetRow) (ws : List SetRow)
    → inline_elements (insert_row less v ws) ≡ length v.elements + inline_elements ws
unfolding insert_row
inline_elements-insert_row less v [] = refl
inline_elements-insert_row less v (w ∷ ws) = ground (arith, inline_elements-insert_row less v ws)

pub inline_elements-sort_rows :
    (less : SetRow → SetRow → Bool) (vs : List SetRow)
    → inline_elements (sort_rows less vs) ≡ inline_elements vs
unfolding sort_rows
inline_elements-sort_rows less [] = refl
inline_elements-sort_rows less (v ∷ vs) =
    inline_elements-insert_row less v (sort_rows less vs)
    ∙ ap (λ n. length v.elements + n) (inline_elements-sort_rows less vs)

-- A row in the place of another changes the sum by the two.
pub inline_elements-insert :
    (k : Bytes) (old new : SetRow) (m : List (Bytes × SetRow))
    → Assoc.lookup k m ≡ some old
    → inline_elements (values (Assoc.insert k new m)) + length old.elements
      ≡ inline_elements (values m) + length new.elements
unfolding Assoc.insert Assoc.lookup
inline_elements-insert k old new [] h = ground (arith, h)
inline_elements-insert k old new ((j, w) ∷ m) h = elim (Bool-cases (text_eq j k)) [
  | inl same ↦
      let here : w ≡ old = ground (arith, same, h) in
      ground (arith, same, ap (λ (s : SetRow). length s.elements) here)
  | inr other ↦ ground (arith, other, inline_elements-insert k old new m (ground (arith, other, h)))
]

-- The walk fills no elements in.
abbrev pub Unfilled : List (Bytes × SetRow) → Type 0
Unfilled m = All (λ s. s.elements ≡ []) (values m)

pub inline_elements-Unfilled :
    (m : List (Bytes × SetRow)) → Unfilled m → inline_elements (values m) ≡ 0
inline_elements-Unfilled [] h = refl
inline_elements-Unfilled ((k, v) ∷ m) h =
    omega (arith, ap length h.0, inline_elements-Unfilled m h.1)

-- Rows within a number of elements each.
abbrev pub Within : ℕ → SetRow → Type 0
Within n s = length s.elements ≤ n

pub Within-Unfilled : (n : ℕ) (m : List (Bytes × SetRow)) → Unfilled m → All (Within n) (values m)
Within-Unfilled n [] h = tt
Within-Unfilled n ((k, v) ∷ m) h = (omega (arith, ap length h.0), Within-Unfilled n m h.1)

-- A listing has no more elements than asked for.
abbrev pub ListingWithin : ℕ → Result Code (List SetElem × ℕ) → Type 0
ListingWithin cap (err code) = Unit
ListingWithin cap (ok (elems, total)) = length elems ≤ cap

module _ {Raw A P : Type 0} (std : Std Raw A P) where
  Unfilled-guarded :
      (b : Bool) (m n : Found)
      → Unfilled m.sets
      → Unfilled n.sets
      → Unfilled (if b then n else m).sets
  Unfilled-guarded true m n h k = k
  Unfilled-guarded false m n h k = h

  Unfilled-visit_set :
      (is_map : Bool) (s : NftSet Raw) (m : Found)
      → Unfilled m.sets
      → Unfilled (visit_set std is_map s m).sets
  unfolding visit_set
  Unfilled-visit_set is_map s m h = All-insert (λ (t : SetRow). t.elements ≡ []) _ _ m.sets refl h

  Unfilled-visit_kind :
      (f : Filter) (detail : Bool) (cap : ℕ) (t : Option NftTable) (c : Option NftChain)
      (r : Option (NftRule Raw)) (s n : Option (NftSet Raw)) (m : Found)
      → Unfilled m.sets
      → Unfilled (visit_kind std f detail cap t c r s n m).sets
  unfolding visit_kind visit_table visit_chain visit_rule
  Unfilled-visit_kind f detail cap (some t) c r s n m h =
      Unfilled-guarded _ m (visit_table std t m) h h
  Unfilled-visit_kind f detail cap none (some c) r s n m h =
      Unfilled-guarded _ m (visit_chain std c m) h h
  Unfilled-visit_kind f detail cap none none (some r) s n m h =
      Unfilled-guarded _ m (visit_rule std detail cap r m) h h
  Unfilled-visit_kind f detail cap none none none (some s) n m h =
      Unfilled-guarded _ m _ h (Unfilled-visit_set false s m h)
  Unfilled-visit_kind f detail cap none none none none (some s) m h =
      Unfilled-guarded _ m _ h (Unfilled-visit_set true s m h)
  Unfilled-visit_kind f detail cap none none none none none m h = h

  pub Unfilled-walk_nft_ruleset :
      (f : Filter) (detail : Bool) (cap : ℕ) (es : List (NftEntry Raw)) (m : Found)
      → Unfilled m.sets
      → Unfilled (walk_nft_ruleset std f detail cap es m).sets
  unfolding walk_nft_ruleset visit
  Unfilled-walk_nft_ruleset f detail cap [] m h = h
  Unfilled-walk_nft_ruleset f detail cap (e ∷ es) m h =
      Unfilled-walk_nft_ruleset f detail cap es _
        (Unfilled-visit_kind f detail cap e.table e.chain e.rule e.set e.map_of m h)

  length-render_elements : (raws : List Raw) (cap : ℕ) → length (render_elements std raws cap) ≤ cap
  unfolding render_elements
  length-render_elements [] cap = omega arith
  length-render_elements (raw ∷ raws) zero = omega arith
  length-render_elements (raw ∷ raws) (suc cap) = omega (arith, length-render_elements raws cap)

  length-first_set : (es : List (NftEntry Raw)) (cap : ℕ) → length (first_set std es cap).0 ≤ cap
  unfolding first_set
  length-first_set [] cap = omega arith
  length-first_set (e ∷ es) cap = elim (Option-cases (set_of e)) [
    | inl other ↦ rw (other, first_set) (length-first_set es cap)
    | inr (s, here) ↦ rw (here, first_set) (length-render_elements s.elem cap)
  ]

  pub listed-ListingWithin :
      (parse : Bytes → Option (List (NftEntry Raw))) (cap : ℕ)
      (r : Bytes × Bool × Option StartError)
      → ListingWithin cap (listed std parse cap r)
  unfolding listed
  listed-ListingWithin parse cap (out, truncated, some e) = tt
  listed-ListingWithin parse cap (out, truncated, none) = elim (Option-cases (parse out)) [
    | inl unread ↦ rw (unread, ListingWithin) tt
    | inr (es, read) ↦ rw (read, ListingWithin) (length-first_set es cap)
  ]

pub clamp_set_elements-le : (v : ℤ) → clamp_set_elements v ≤ firewall_hard_elem_cap
unfolding clamp_set_elements
clamp_set_elements-le (pos n) = ground arith
clamp_set_elements-le (negsuc n) = omega arith

pub cap_for-bounds : (most left : ℕ) → (cap_for most left ≤ most) × (cap_for most left ≤ left)
cap_for-bounds most left = ground arith
