-- ===== src/Firewall/Lookup/Passes.antt =====
-- `FirewallLookup` of daemon/internal/helper/ops/firewall_lookup.go as a whole.
use host_health_mcp.Base.{
  ℕ, suc, ◌*◌, Bytes, Bool, true, false, Option, none, some, List, [], ◌∷◌, ◌++◌, length,
  if◌then◌else◌,
}
use host_health_mcp.Base.Result.{Result, ok, err}
use host_health_mcp.Helper.Ops.{Code, tool_missing}
use host_health_mcp.Helper.Exec.{Child, StartError, no_tool, no_start, failed_tool, run_capped}
use host_health_mcp.Firewall.{Std}
use host_health_mcp.Firewall.Nft.{NftEntry, slash, set_key}
use host_health_mcp.Firewall.Address.{LookupQuery, query_kind, parse_lookup_query}
use host_health_mcp.Firewall.Lookup.{
  SetHit, Sets, keys, sort_strings, seen_with, index_sets, emit_sets,
}
use host_health_mcp.Firewall.Lookup.Rules.{RuleMatch, match_rule_against_query}

pub record LookupReq : Type 0 where
  pub query : Bytes
  pub include_set_elements : Bool

pub data Warning : Type 0 where
  nft_not_installed prefix_only : Warning

pub record LookupResult : Type 0 where
  pub query : Bytes
  pub query_kind : Bytes
  pub matches : List RuleMatch
  pub sets : List SetHit
  pub searched_tables : ℕ
  pub searched_chains : ℕ
  pub searched_rules : ℕ
  pub searched_sets : ℕ
  pub warnings : List Warning

pub data LookupError : Type 0 where
  bad_param empty_query invalid_query parse_failed : LookupError
  nft_failed : StartError → LookupError

abbrev pub firewall_ruleset_cap : ℕ
firewall_ruleset_cap = 32 * 1024 * 1024

-- `errors.As(err, &de) && de.Code == proto.CodeToolMissing`
abbrev is_missing_code : Code → Bool
is_missing_code tool_missing = true
is_missing_code _ = false

unfoldable pub is_tool_missing : StartError → Bool
is_tool_missing (no_tool d) = is_missing_code d.code
is_tool_missing no_start = false
is_tool_missing (failed_tool d) = is_missing_code d.code

-- What pass 2 gathers.
pub record Walked : Type 0 where
  pub table_seen : List Bytes
  pub chain_seen : List Bytes
  pub rules : ℕ
  pub matches : List RuleMatch

abbrev pub nothing_walked : Walked
nothing_walked = record { table_seen = []; chain_seen = []; rules = 0; matches = [] }

module _ {Raw A P : Type 0} (std : Std Raw A P) where
  -- Pass 2.
  unfoldable pub walk : LookupQuery A P → Sets → List (NftEntry Raw) → Walked → Walked
  walk q sets [] w = w
  walk q sets (e ∷ es) w = elim e.table [
    | some t ↦
        walk q sets es (record w { table_seen = seen_with (slash t.family t.name) w.table_seen })
    | none ↦ elim e.chain [
      | some c ↦
          walk q sets es
            (record w { chain_seen = seen_with (set_key c.family c.table c.name) w.chain_seen })
      | none ↦ elim e.rule [
        | none ↦ walk q sets es w
        | some r ↦ walk q sets es (record w {
          rules = suc w.rules;
          matches = w.matches ++ match_rule_against_query std q sets r;
        })
      ]
    ]
  ]

  -- Both passes over a ruleset.
  unfoldable pub search : LookupReq → LookupQuery A P → Bool → List (NftEntry Raw) → LookupResult
  search req q truncated entries =
      let (sets, searched) = index_sets std q req.include_set_elements entries ([], 0) in
      let w = walk q sets entries nothing_walked in
      record {
        query = req.query;
        query_kind = query_kind std q;
        matches = w.matches;
        sets =
            if req.include_set_elements
            then emit_sets std q (sort_strings (keys sets)) sets
            else [];
        searched_tables = length w.table_seen;
        searched_chains = length w.chain_seen;
        searched_rules = w.rules;
        searched_sets = searched;
        warnings = if truncated then prefix_only ∷ [] else [];
      }

  abbrev pub not_installed : LookupReq → LookupQuery A P → LookupResult
  not_installed req q = record {
    query = req.query;
    query_kind = query_kind std q;
    matches = [];
    sets = [];
    searched_tables = 0;
    searched_chains = 0;
    searched_rules = 0;
    searched_sets = 0;
    warnings = nft_not_installed ∷ [];
  }

  -- `parse` is json.Unmarshal at `fwNftRoot`; the last argument is what `RunCapped` returned.
  unfoldable pub look_at :
      (Bytes → Option (List (NftEntry Raw)))
      → LookupReq
      → LookupQuery A P
      → Bytes × Bool × Option StartError
      → Result LookupError LookupResult
  look_at parse req q (raw, truncated, some e) =
      if is_tool_missing e then ok (not_installed req q) else err (nft_failed e)
  look_at parse req q (raw, truncated, none) = elim (parse raw) [
    | none ↦ err parse_failed
    | some entries ↦ ok (search req q truncated entries)
  ]

  abbrev pub no_req : LookupReq
  no_req = record { query = []; include_set_elements = false }

  abbrev pub read_req : (Bytes → Option LookupReq) → Bytes → Option LookupReq
  read_req parse_req [] = some no_req
  read_req parse_req (c ∷ cs) = parse_req (c ∷ cs)

  unfoldable pub firewall_lookup :
      (Bytes → Bytes)
      → (Bytes → Option LookupReq)
      → (Bytes → Option (List (NftEntry Raw)))
      → Child
      → Bytes
      → Result LookupError LookupResult
  firewall_lookup sha256_hex parse_req parse nft param = elim (read_req parse_req param) [
    | none ↦ err bad_param
    | some req ↦ elim (std.trim_space req.query) [
      | [] ↦ err empty_query
      | _ ∷ _ ↦ elim (parse_lookup_query std req.query) [
        | err e ↦ err invalid_query
        | ok q ↦ look_at parse req q (run_capped sha256_hex firewall_ruleset_cap nft)
      ]
    ]
  ]
