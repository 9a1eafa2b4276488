-- ===== src/Firewall/Walk.antt =====
-- The walk of `FirewallInspect` in daemon/internal/helper/ops/firewall.go over a ruleset: the request
-- and its limits, the table filter, and the maps of tables, chains and sets.
use host_health_mcp.Base.{
  ℕ, suc, ◌*◌, Bytes, text_eq, Bool, true, false, ◌&&◌, Option, none, some, List, [], ◌∷◌, ◌++◌,
  length, ltb, ◌==◌, if◌then◌else◌,
}
use host_health_mcp.Base.Eq.{bytes_eq}
use host_health_mcp.Base.Assoc
use host_health_mcp.Helper.Deadline.{ℤ, positive}
use host_health_mcp.Firewall.{Std}
use host_health_mcp.Firewall.Nft.{
  NftTable, NftChain, NftRule, NftSet, NftEntry, slash, set_key, stringify_type,
}
use host_health_mcp.Firewall.Render.{TableMeta, Chain, SetRow, render_rule}

pub record BanSet : Type 0 where
  pub family : Bytes
  pub table : Bytes
  pub name : Bytes
  pub source : Bytes

pub record FirewallReq : Type 0 where
  pub mode : Bytes
  pub table_filter : Bytes
  pub include_set_elements : Bool
  pub detail_mode_allowed : Bool
  pub ban_sets : List BanSet
  pub max_set_elements : ℤ
  pub max_rule_text_bytes : ℤ

abbrev pub firewall_hard_elem_cap : ℕ
firewall_hard_elem_cap = 24_000

abbrev pub firewall_elem_budget : ℕ
firewall_elem_budget = 24_000

abbrev pub firewall_hard_rule_text_cap : ℕ
firewall_hard_rule_text_cap = 1_048_576

abbrev pub firewall_rule_text_default : ℕ
firewall_rule_text_default = 65_536

abbrev or_default : ℕ → ℕ → Option ℕ → ℕ
or_default default cap none = default
or_default default cap (some n) = if ltb cap n then cap else n

unfoldable pub clamp_rule_text_bytes : ℤ → ℕ
clamp_rule_text_bytes v =
    or_default firewall_rule_text_default firewall_hard_rule_text_cap (positive v)

unfoldable pub clamp_set_elements : ℤ → ℕ
clamp_set_elements v = or_default 2000 firewall_hard_elem_cap (positive v)

-- `strings.Cut(s, "/")`
unfoldable pub cut_slash : Bytes → Option (Bytes × Bytes)
cut_slash [] = none
cut_slash (c ∷ cs) =
    if c == b'/'
    then some ([], cs)
    else elim (cut_slash cs) [ none ↦ none | some (a, b) ↦ some (c ∷ a, b) ]

abbrev pub Filter : Type 0
Filter = Option (Bytes × Bytes)

abbrev both_named : Option (Bytes × Bytes) → Option (Bytes × Bytes)
both_named none = none
both_named (some ([], b)) = none
both_named (some (c ∷ cs, [])) = none
both_named (some (c ∷ cs, d ∷ ds)) = some (c ∷ cs, d ∷ ds)

-- The filter of a request, or nothing where it is malformed.
unfoldable pub table_filter : Bytes → Option Filter
table_filter [] = some none
table_filter (c ∷ cs) = elim (both_named (cut_slash (c ∷ cs))) [
  | none ↦ none
  | some f ↦ some (some f)
]

unfoldable pub keep : Filter → Bytes → Bytes → Bool
keep none family name = true
keep (some (f, n)) family name = text_eq f family && text_eq n name

-- The maps that the walk fills.
pub record Found : Type 0 where
  pub tables : List (Bytes × TableMeta)
  pub chains : List (Bytes × List (Bytes × Chain))
  pub sets : List (Bytes × SetRow)

abbrev pub nothing_found : Found
nothing_found = record { tables = []; chains = []; sets = [] }

-- A change through the pointer that a map holds, if it holds one.
unfoldable pub adjust : {V : Type 0} → Bytes → (V → V) → List (Bytes × V) → List (Bytes × V)
adjust k f m = elim (Assoc.lookup k m) [ none ↦ m | some v ↦ Assoc.insert k (f v) m ]

abbrev pub or_no_chains : Option (List (Bytes × Chain)) → List (Bytes × Chain)
or_no_chains none = []
or_no_chains (some m) = m

abbrev pub chain_of : NftChain → Chain
chain_of c = record {
  family = c.family;
  table = c.table;
  name = c.name;
  type_of = c.type_of;
  hook = c.hook;
  prio = c.prio;
  policy = c.policy;
  rule_count = 0;
  rules = [];
}

module _ {Raw A P : Type 0} (std : Std Raw A P) where
  unfoldable pub visit_table : NftTable → Found → Found
  visit_table t m = record m {
    tables =
        Assoc.insert (slash t.family t.name)
          (record {
            family = t.family;
            name = t.name;
            chain_count = 0;
            set_count = 0;
            map_count = 0;
            rule_count = 0;
          })
          m.tables;
  }

  unfoldable pub visit_chain : NftChain → Found → Found
  visit_chain c m =
      let key = slash c.family c.table in
      record m {
        chains =
            Assoc.insert key
              (Assoc.insert c.name (chain_of c) (or_no_chains (Assoc.lookup key m.chains)))
              m.chains;
        tables = adjust key (λ t. record t { chain_count = suc t.chain_count }) m.tables;
      }

  -- A rule of a chain; its text only in detail mode, and within the budget.
  unfoldable pub add_rule : Bool → ℕ → NftRule Raw → Chain → Chain
  add_rule detail max_rule_text_bytes r c =
      let counted = record c { rule_count = suc c.rule_count } in
      if detail && ltb (length c.rules * 128) max_rule_text_bytes
      then record counted { rules = c.rules ++ (render_rule std r ∷ []) }
      else counted

  unfoldable pub visit_rule : Bool → ℕ → NftRule Raw → Found → Found
  visit_rule detail max_rule_text_bytes r m =
      let key = slash r.family r.table in
      record m {
        tables = adjust key (λ t. record t { rule_count = suc t.rule_count }) m.tables;
        chains = adjust key (adjust r.chain (add_rule detail max_rule_text_bytes r)) m.chains;
      }

  abbrev pub row_of : Bool → NftSet Raw → SetRow
  row_of is_map s = record {
    family = s.family;
    table = s.table;
    name = s.name;
    type_of = stringify_type std s.type_of;
    flags = s.flags;
    size_limit = s.size;
    element_count = length s.elem;
    elements = [];
    elements_truncated = false;
    is_map = is_map;
  }

  abbrev pub count_set : Bool → TableMeta → TableMeta
  count_set is_map t =
      if is_map
      then record t { map_count = suc t.map_count }
      else record t { set_count = suc t.set_count }

  unfoldable pub visit_set : Bool → NftSet Raw → Found → Found
  visit_set is_map s m = record m {
    sets = Assoc.insert (set_key s.family s.table s.name) (row_of is_map s) m.sets;
    tables = adjust (slash s.family s.table) (count_set is_map) m.tables;
  }

  -- What `walkNftRuleset` calls for an entry, by the kinds in the order of its switch.
  unfoldable pub visit_kind :
      Filter
      → Bool
      → ℕ
      → Option NftTable
      → Option NftChain
      → Option (NftRule Raw)
      → Option (NftSet Raw)
      → Option (NftSet Raw)
      → Found
      → Found
  visit_kind filter detail cap (some t) chain rule set map_of m =
      if keep filter t.family t.name then visit_table t m else m
  visit_kind filter detail cap none (some c) rule set map_of m =
      if keep filter c.family c.table then visit_chain c m else m
  visit_kind filter detail cap none none (some r) set map_of m =
      if keep filter r.family r.table then visit_rule detail cap r m else m
  visit_kind filter detail cap none none none (some s) map_of m =
      if keep filter s.family s.table then visit_set false s m else m
  visit_kind filter detail cap none none none none (some s) m =
      if keep filter s.family s.table then visit_set true s m else m
  visit_kind filter detail cap none none none none none m = m

  unfoldable pub visit : Filter → Bool → ℕ → NftEntry Raw → Found → Found
  visit filter detail cap e m = visit_kind filter detail cap e.table e.chain e.rule e.set e.map_of m

  unfoldable pub walk_nft_ruleset : Filter → Bool → ℕ → List (NftEntry Raw) → Found → Found
  walk_nft_ruleset filter detail cap [] m = m
  walk_nft_ruleset filter detail cap (e ∷ es) m =
      walk_nft_ruleset filter detail cap es (visit filter detail cap e m)
