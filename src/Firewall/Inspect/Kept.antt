-- ===== src/Firewall/Inspect/Kept.antt =====
-- What the walk of daemon/internal/helper/ops/firewall.go holds under a table filter.
use host_health_mcp.Base.{
  ℕ, ◌*◌, ◌≡◌, ◌≢◌, refl, ◌∙◌, Bytes, text_eq_iff, Bool, true, false, ◌&&◌, Option, none, some,
  List, [], ◌∷◌, inl, inr, arith, All, Option-cases, Bool-cases, length, ltb, ◌==◌, ==_iff,
  if◌then◌else◌,
}
use host_health_mcp.Base.Eq.{bytes_eq}
use host_health_mcp.Base.Assoc
use host_health_mcp.Firewall.{Std}
use host_health_mcp.Firewall.Nft.{NftEntry, NftRule, NftTable, NftChain, NftSet, slash, set_key}
use host_health_mcp.Firewall.Render.{TableMeta, Chain}
use host_health_mcp.Firewall.Walk.{
  Filter, Found, cut_slash, table_filter, keep, add_rule, visit, walk_nft_ruleset, or_no_chains,
  visit_table, visit_chain, visit_rule, visit_set, visit_kind, chain_of, count_set,
}
use host_health_mcp.Firewall.Inspect.{values, all_chains}
use host_health_mcp.Firewall.Rows.{All-append, All-insert, All-lookup, All-adjust}

-- `strings.Cut` gives the two sides of the text.
cut_slash_lem : (s : Bytes) (ab : Bytes × Bytes) → cut_slash s ≡ some ab → slash ab.0 ab.1 ≡ s
unfolding cut_slash
cut_slash_lem [] ab h = ground (arith, h)
cut_slash_lem (c ∷ cs) ab h = elim (Bool-cases (c == b'/')) [
  | inl here ↦ ground (arith, ==_iff c b'/', here, h)
  | inr other ↦ elim (Option-cases (cut_slash cs)) [
    | inl no_slash ↦ ground (arith, other, no_slash, h)
    | inr (d, later) ↦ ground (arith, other, later, h, cut_slash_lem cs d later)
  ]
]

pub table_filter_lem :
    (s : Bytes) (f : Filter)
    → table_filter s ≡ some f
    → s ≢ []
    → (ab : Bytes × Bytes) × (f ≡ some ab) × (slash ab.0 ab.1 ≡ s)
unfolding table_filter
table_filter_lem [] f h full = absurd (full refl)
table_filter_lem (c ∷ cs) f h full = elim (Option-cases (cut_slash (c ∷ cs))) [
  | inl no_slash ↦ absurd (ground (arith, no_slash, h))
  | inr (ab, cut) ↦ named ab cut
]
  where
    named :
        (ab : Bytes × Bytes)
        → cut_slash (c ∷ cs) ≡ some ab
        → (de : Bytes × Bytes) × (f ≡ some de) × (slash de.0 de.1 ≡ c ∷ cs)
    named ([], b) cut = absurd (ground (arith, cut, h))
    named (x ∷ a, []) cut = absurd (ground (arith, cut, h))
    named (x ∷ a, y ∷ b) cut =
        ((x ∷ a, y ∷ b), ground (arith, cut, h), cut_slash_lem (c ∷ cs) (x ∷ a, y ∷ b) cut)

-- The rows that a filter lets through.
abbrev pub InTable : Bytes → Bytes → Bytes → Type 0
InTable text family name = slash family name ≡ text

keep_lem :
    (ab : Bytes × Bytes) (family name : Bytes)
    → keep (some ab) family name ≡ true
    → slash family name ≡ slash ab.0 ab.1
unfolding keep
keep_lem (a, b) family name h = ground (arith, h, text_eq_iff a family, text_eq_iff b name)

-- What the walk holds: rows of the filtered table only.
module _ (text : Bytes) where
  abbrev pub ChainsIn : List (Bytes × Chain) → Type 0
  ChainsIn m = All (λ c. InTable text c.family c.table) (values m)

  abbrev pub FoundIn : Found → Type 0
  FoundIn m =
      All (λ t. InTable text t.family t.name) (values m.tables)
      × All ChainsIn (values m.chains)
      × All (λ s. InTable text s.family s.table) (values m.sets)

  pub All-all_chains :
      (ms : List (Bytes × List (Bytes × Chain)))
      → All ChainsIn (values ms)
      → All (λ c. InTable text c.family c.table) (all_chains ms)
  All-all_chains [] h = tt
  All-all_chains ((k, m) ∷ ms) h =
      All-append (λ c. InTable text c.family c.table) (values m) _ h.0 (All-all_chains ms h.1)

  module _ {Raw A P : Type 0} (std : Std Raw A P) (detail : Bool) (cap : ℕ) where
    guarded :
        (ab : Bytes × Bytes) (family name : Bytes) (m n : Found)
        → slash ab.0 ab.1 ≡ text
        → FoundIn m
        → (InTable text family name → FoundIn n)
        → FoundIn (if keep (some ab) family name then n else m)
    guarded ab family name m n is h k = elim (Bool-cases (keep (some ab) family name)) [
      | inl kept ↦ rw kept (k (keep_lem ab family name kept ∙ is))
      | inr left ↦ rw left h
    ]

    FoundIn-visit_table :
        (t : NftTable) (m : Found)
        → InTable text t.family t.name
        → FoundIn m
        → FoundIn (visit_table std t m)
    unfolding visit_table
    FoundIn-visit_table t m here (ts, cs, ss) = (
      All-insert (λ s. InTable text s.family s.name) (slash t.family t.name) _ m.tables here ts,
      cs,
      ss,
    )

    FoundIn-visit_chain :
        (c : NftChain) (m : Found)
        → InTable text c.family c.table
        → FoundIn m
        → FoundIn (visit_chain std c m)
    unfolding visit_chain
    FoundIn-visit_chain c m here (ts, cs, ss) =
        let key = slash c.family c.table in
        (
          All-adjust (λ s. InTable text s.family s.name) key _ m.tables (λ t h. h) ts,
          All-insert ChainsIn key _ m.chains
              (All-insert (λ d. InTable text d.family d.table) c.name (chain_of c) _ here
                (there (Assoc.lookup key m.chains) (λ v. All-lookup ChainsIn key v m.chains cs)))
              cs,
          ss,
        )
      where
        there :
            (o : Option (List (Bytes × Chain)))
            → ((v : List (Bytes × Chain)) → o ≡ some v → ChainsIn v)
            → ChainsIn (or_no_chains o)
        there none k = tt
        there (some v) k = k v refl

    add_rule-InTable :
        (r : NftRule Raw) (c : Chain)
        → InTable text c.family c.table
        → InTable text (add_rule std detail cap r c).family (add_rule std detail cap r c).table
    unfolding add_rule
    add_rule-InTable r c h = elim (Bool-cases (detail && ltb (length c.rules * 128) cap)) [
      | inl shown ↦ rw shown h
      | inr counted ↦ rw counted h
    ]

    FoundIn-visit_rule :
        (r : NftRule Raw) (m : Found) → FoundIn m → FoundIn (visit_rule std detail cap r m)
    unfolding visit_rule
    FoundIn-visit_rule r m (ts, cs, ss) =
        let key = slash r.family r.table in
        (
          All-adjust (λ s. InTable text s.family s.name) key _ m.tables (λ t h. h) ts,
          All-adjust ChainsIn key _ m.chains
              (λ v.
                All-adjust (λ d. InTable text d.family d.table) r.chain _ v (add_rule-InTable r))
              cs,
          ss,
        )

    FoundIn-visit_set :
        (is_map : Bool) (s : NftSet Raw) (m : Found)
        → InTable text s.family s.table
        → FoundIn m
        → FoundIn (visit_set std is_map s m)
    unfolding visit_set
    FoundIn-visit_set is_map s m here (ts, cs, ss) = (
      All-adjust (λ t. InTable text t.family t.name) (slash s.family s.table) (count_set std is_map)
          m.tables (count_set-InTable is_map) ts,
      cs,
      All-insert (λ t. InTable text t.family t.table) (set_key s.family s.table s.name) _ m.sets
          here ss,
    )
      where
        count_set-InTable :
            (is_map : Bool) (t : TableMeta)
            → InTable text t.family t.name
            → InTable text (count_set std is_map t).family (count_set std is_map t).name
        count_set-InTable true t h = h
        count_set-InTable false t h = h

    FoundIn-visit_kind :
        (ab : Bytes × Bytes) (t : Option NftTable) (c : Option NftChain) (r : Option (NftRule Raw))
        (s n : Option (NftSet Raw)) (m : Found)
        → slash ab.0 ab.1 ≡ text
        → FoundIn m
        → FoundIn (visit_kind std (some ab) detail cap t c r s n m)
    unfolding visit_kind
    FoundIn-visit_kind ab (some t) c r s n m is h =
        guarded ab t.family t.name m _ is h (λ here. FoundIn-visit_table t m here h)
    FoundIn-visit_kind ab none (some c) r s n m is h =
        guarded ab c.family c.table m _ is h (λ here. FoundIn-visit_chain c m here h)
    FoundIn-visit_kind ab none none (some r) s n m is h =
        guarded ab r.family r.table m _ is h (λ here. FoundIn-visit_rule r m h)
    FoundIn-visit_kind ab none none none (some s) n m is h =
        guarded ab s.family s.table m _ is h (λ here. FoundIn-visit_set false s m here h)
    FoundIn-visit_kind ab none none none none (some s) m is h =
        guarded ab s.family s.table m _ is h (λ here. FoundIn-visit_set true s m here h)
    FoundIn-visit_kind ab none none none none none m is h = h

    pub FoundIn-walk_nft_ruleset :
        (ab : Bytes × Bytes) (es : List (NftEntry Raw)) (m : Found)
        → slash ab.0 ab.1 ≡ text
        → FoundIn m
        → FoundIn (walk_nft_ruleset std (some ab) detail cap es m)
    unfolding walk_nft_ruleset visit
    FoundIn-walk_nft_ruleset ab [] m is h = h
    FoundIn-walk_nft_ruleset ab (e ∷ es) m is h =
        FoundIn-walk_nft_ruleset ab es _ is
          (FoundIn-visit_kind ab e.table e.chain e.rule e.set e.map_of m is h)
