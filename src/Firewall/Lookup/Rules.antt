-- ===== src/Firewall/Lookup/Rules.antt =====
-- What `FirewallLookup` of daemon/internal/helper/ops/firewall_lookup.go makes of a rule: its match
-- expressions on source and destination addresses.
use host_health_mcp.Base.{
  Bytes, codes, text_eq, Bool, ◌||◌, Option, none, some, List, [], ◌∷◌, ◌==◌, if◌then◌else◌,
}
use host_health_mcp.Base.Maybe.{◌>>=◌, ◌>>◌, only_if, or_else}
use host_health_mcp.Base.Eq.{bytes_eq}
use host_health_mcp.Base.Assoc
use host_health_mcp.Helper.Deadline.{ℤ}
use host_health_mcp.Firewall.{Std}
use host_health_mcp.Firewall.Nft.{NftRule, set_key}
use host_health_mcp.Firewall.Address.{
  LookupQuery, is_cidr, contains_any, element_value_overlaps_query, addr_hit, prefix_hit, range_hit,
}
use host_health_mcp.Firewall.Lookup.{
  MatchKind, saddr_exact, daddr_exact, saddr_in_subnet, daddr_in_subnet, set_member,
  set_subset_overlap, Sets,
}

-- `FirewallRuleMatch`
pub record RuleMatch : Type 0 where
  pub match_kind : MatchKind
  pub family : Bytes
  pub table : Bytes
  pub chain : Bytes
  pub rule_handle : ℤ
  pub rule_text : Bytes
  pub operator : Bytes
  pub matched_value : Bytes
  pub set_name : Bytes

pub data HitKind : Type 0 where
  exact subnet set_ref : HitKind

-- `ruleHit`
pub record RuleHit : Type 0 where
  pub set_name : Bytes
  pub matched_value : Bytes
  pub kind : HitKind

pub data Field : Type 0 where
  saddr daddr : Field

unfoldable pub rule_match_kind : Field → HitKind → Bool → MatchKind
rule_match_kind f set_ref cidr = if cidr then set_subset_overlap else set_member
rule_match_kind saddr exact cidr = saddr_exact
rule_match_kind daddr exact cidr = daddr_exact
rule_match_kind saddr subnet cidr = saddr_in_subnet
rule_match_kind daddr subnet cidr = daddr_in_subnet

module _ {Raw A P : Type 0} (std : Std Raw A P) (q : LookupQuery A P) where
  unfoldable pub ip_payload_field : Raw → Option Field
  ip_payload_field left = do
    obj ← std.as_object left
    p ← obj (codes "payload")
    payload ← std.as_payload p
    only_if (text_eq payload.protocol (codes "ip") || text_eq payload.protocol (codes "ip6"))
    if text_eq payload.field (codes "saddr")
        then some saddr
        else if text_eq payload.field (codes "daddr")
        then some daddr
        else none

  abbrev pub hit : Bytes → HitKind → RuleHit
  hit value kind = record { set_name = []; matched_value = value; kind = kind }

  -- The first member of an anonymous set that matches.
  unfoldable pub first_member : List Raw → Option Bytes
  first_member [] = none
  first_member (m ∷ ms) =
      let rest = first_member ms in
      elim (element_value_overlaps_query std m q) [ some key ↦ some key | none ↦ rest ]

  unfoldable pub set_member_hit : (Bytes → Option Raw) → Option RuleHit
  set_member_hit obj = do
    raw ← obj (codes "set")
    members ← std.as_list raw
    key ← first_member members
    some (hit key (if contains_any (codes "/-") key || is_cidr q then subnet else exact))

  -- A reference "@name" to a set of the rule's table.
  unfoldable pub set_ref_hit : Bytes → Bytes → Sets → Bytes → Option RuleHit
  set_ref_hit family table sets name = do
    i ← Assoc.lookup (set_key family table name) sets
    only_if i.has_match
    some (record { set_name = name; matched_value = b'@' ∷ name; kind = set_ref })

  abbrev pub literal_hit : Bytes → Option RuleHit
  literal_hit s = addr_hit std s q >>= λ key. some (hit key (if is_cidr q then subnet else exact))

  unfoldable pub text_side : Bytes → Bytes → Sets → Bytes → Option RuleHit
  text_side family table sets [] = literal_hit []
  text_side family table sets (c ∷ cs) =
      if c == b'@' then set_ref_hit family table sets cs else literal_hit (c ∷ cs)

  abbrev pub as_subnet : Option Bytes → Option RuleHit
  as_subnet o = o >>= λ key. some (hit key subnet)

  -- `evaluateRightSide`, which finds one hit at most.
  unfoldable pub evaluate_right_side : Bytes → Bytes → Sets → Raw → Option RuleHit
  evaluate_right_side family table sets right =
      if std.is_empty right then none else elim (std.as_text right) [
        | some s ↦ text_side family table sets s
        | none ↦ std.as_object right >>= λ obj.
            or_else (as_subnet (prefix_hit std obj q))
              (or_else (set_member_hit obj) (as_subnet (range_hit std obj q)))
      ]

  -- What one expression of a rule yields.
  unfoldable pub match_expr : Sets → NftRule Raw → Raw → Option RuleMatch
  match_expr sets r raw = do
    probe ← std.as_object raw
    match_raw ← probe (codes "match")
    m ← std.as_match match_raw
    field ← ip_payload_field m.left
    found ← evaluate_right_side r.family r.table sets m.right
    some (record {
      match_kind = rule_match_kind field found.kind (is_cidr q);
      family = r.family;
      table = r.table;
      chain = r.chain;
      rule_handle = r.handle;
      rule_text = std.marshal r.expr;
      operator = m.op;
      matched_value = found.matched_value;
      set_name = found.set_name;
    })

  unfoldable pub match_exprs : Sets → NftRule Raw → List Raw → List RuleMatch
  match_exprs sets r [] = []
  match_exprs sets r (raw ∷ raws) =
      let rest = match_exprs sets r raws in
      elim (match_expr sets r raw) [ none ↦ rest | some m ↦ m ∷ rest ]

  unfoldable pub match_rule_against_query : Sets → NftRule Raw → List RuleMatch
  match_rule_against_query sets r = match_exprs sets r r.expr
