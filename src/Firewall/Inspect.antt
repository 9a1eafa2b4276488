-- ===== src/Firewall/Inspect.antt =====
-- `FirewallInspect` of daemon/internal/helper/ops/firewall.go as a whole, over the walk of
-- Firewall/Walk.antt and the elements of Firewall/Elements.antt. The three `sort.Slice` are insertion
-- by their orders.
pub mod Kept
pub mod Filtered
pub mod Inline
pub mod Budget
use host_health_mcp.Base.{
  ℕ, ◌*◌, Bytes, codes, text_eq, Bool, true, false, not, ◌&&◌, Option, none, some, List, [], ◌∷◌,
  ◌++◌, ltb, ◌==◌, if◌then◌else◌,
}
use host_health_mcp.Base.Eq.{bytes_eq}
use host_health_mcp.Base.Assoc
use host_health_mcp.Base.Result.{Result, ok, err}
use host_health_mcp.Helper.Ops.{Code}
use host_health_mcp.Helper.Server.{DispatchError}
use host_health_mcp.Helper.Exec.{Child, StartError, run, run_capped}
use host_health_mcp.Helper.Deadline.{ℤ, pos}
use host_health_mcp.Firewall.{Std}
use host_health_mcp.Firewall.Nft.{NftEntry}
use host_health_mcp.Firewall.Lookup.{text_lt}
use host_health_mcp.Firewall.Lookup.Passes.{firewall_ruleset_cap, is_tool_missing}
use host_health_mcp.Firewall.Render.{TableMeta, Chain, SetRow}
use host_health_mcp.Firewall.Walk.{
  FirewallReq, Filter, Found, clamp_rule_text_bytes, clamp_set_elements, firewall_elem_budget,
  table_filter, nothing_found, walk_nft_ruleset,
}
use host_health_mcp.Firewall.Elements.{
  Warning, nft_not_installed, prefix_only, detail_disabled, Bans, count_bans, order_set_keys,
  run_nft_list_set, Fetched, fetch_sets,
}

pub record FirewallResult : Type 0 where
  pub backend : Bytes
  pub nft_version : Option Bytes
  pub ruleset_hash_sha256 : Bytes
  pub tables : List TableMeta
  pub chains : List Chain
  pub sets : List SetRow
  pub bans : Bans
  pub warnings : List Warning

pub data InspectError : Type 0 where
  bad_param bad_filter parse_failed : InspectError
  nft_failed : StartError → InspectError

-- `return a < b` after the `if a != b` of a comparison, with what follows where they are equal.
unfoldable pub text_less : Bytes → Bytes → Bool → Bool
text_less a b next = if text_eq a b then next else text_lt a b

abbrev pub table_less : TableMeta → TableMeta → Bool
table_less s t = text_less s.family t.family (text_lt s.name t.name)

abbrev pub chain_less : Chain → Chain → Bool
chain_less c d = text_less c.family d.family (text_less c.table d.table (text_lt c.name d.name))

abbrev pub set_less : SetRow → SetRow → Bool
set_less s t = text_less s.family t.family (text_less s.table t.table (text_lt s.name t.name))

unfoldable pub insert_row : {V : Type 0} → (V → V → Bool) → V → List V → List V
insert_row less v [] = v ∷ []
insert_row less v (w ∷ ws) =
    let rest = insert_row less v ws in if less w v then w ∷ rest else v ∷ w ∷ ws

unfoldable pub sort_rows : {V : Type 0} → (V → V → Bool) → List V → List V
sort_rows less [] = []
sort_rows less (v ∷ vs) = insert_row less v (sort_rows less vs)

abbrev pub values : {V : Type 0} → List (Bytes × V) → List V
values [] = []
values ((k, v) ∷ m) = v ∷ values m

abbrev pub all_chains : List (Bytes × List (Bytes × Chain)) → List Chain
all_chains [] = []
all_chains ((k, m) ∷ ms) = values m ++ all_chains ms

unfoldable pub first_line : Bytes → Bytes
first_line [] = []
first_line (c ∷ cs) = let rest = first_line cs in if c == b'\n' then [] else c ∷ rest

-- The first of `strings.Fields(line)` that starts with a v and goes on.
unfoldable pub version_field : List Bytes → Option Bytes
version_field [] = none
version_field ([] ∷ fs) = version_field fs
version_field ((c ∷ []) ∷ fs) = version_field fs
version_field ((c ∷ d ∷ ds) ∷ fs) =
    let rest = version_field fs in if c == b'v' then some (d ∷ ds) else rest

abbrev pub or_line : Bytes → Option Bytes → Bytes
or_line line none = line
or_line line (some v) = v

-- What the op gets from elsewhere: SHA-256 in hex, `strings.Fields`, json.Unmarshal at `FirewallReq` and
-- at `fwNftRoot`, and the runs of nft.
pub record Env (Raw : Type 0) : Type 0 where
  pub sha256_hex : Bytes → Bytes
  pub fields : Bytes → List Bytes
  pub parse_req : Bytes → Option FirewallReq
  pub parse : Bytes → Option (List (NftEntry Raw))
  pub list_ruleset : Child
  pub version : Child
  pub list_set : SetRow → Child

abbrev pub no_bans : Bans
no_bans = record { total_active_v4 = 0; total_active_v6 = 0; by_set = []; missing = [] }

abbrev pub no_firewall : FirewallResult
no_firewall = record {
  backend = codes "none";
  nft_version = none;
  ruleset_hash_sha256 = [];
  tables = [];
  chains = [];
  sets = [];
  bans = no_bans;
  warnings = nft_not_installed ∷ [];
}

abbrev pub no_req : FirewallReq
no_req = record {
  mode = [];
  table_filter = [];
  include_set_elements = false;
  detail_mode_allowed = false;
  ban_sets = [];
  max_set_elements = pos 0;
  max_rule_text_bytes = pos 0;
}

abbrev pub read_req : (Bytes → Option FirewallReq) → Bytes → Option FirewallReq
read_req parse_req [] = some no_req
read_req parse_req (c ∷ cs) = parse_req (c ∷ cs)

abbrev pub warn_if : Bool → Warning → List Warning
warn_if b w = if b then w ∷ [] else []

module _ {Raw A P : Type 0} (std : Std Raw A P) (env : Env Raw) where
  abbrev version_of : Bytes × Option DispatchError → Option Bytes
  version_of (out, some e) = none
  version_of (out, none) =
      let line = std.trim_space (first_line out) in
      some (or_line line (version_field (env.fields line)))

  unfoldable pub run_nft_version : Option Bytes
  run_nft_version = version_of (run env.sha256_hex env.version)

  -- `walkNftRuleset` on the bytes that nft printed: none of them are no ruleset, and no error.
  unfoldable pub entries_of : Bytes → Option (List (NftEntry Raw))
  entries_of [] = some []
  entries_of (c ∷ cs) = env.parse (c ∷ cs)

  abbrev pub is_detail : FirewallReq → Bool
  is_detail req = text_eq req.mode (codes "detail")

  unfoldable pub found_of : FirewallReq → Filter → List (NftEntry Raw) → Found
  found_of req filter entries =
      walk_nft_ruleset std filter (is_detail req && req.detail_mode_allowed)
        (clamp_rule_text_bytes req.max_rule_text_bytes) entries nothing_found

  -- The element phase over the sets that were found.
  unfoldable pub fetched_of : FirewallReq → List (Bytes × SetRow) → Fetched
  fetched_of req sets =
      let start : Fetched = record {
        sets = sets;
        remaining = firewall_elem_budget;
        warnings = [];
      } in
      if req.include_set_elements
      then fetch_sets (run_nft_list_set std env.sha256_hex env.parse env.list_set)
          (clamp_set_elements req.max_set_elements) (order_set_keys sets req.ban_sets) start
      else start

  abbrev backend_of : List (Bytes × TableMeta) → Bytes
  backend_of [] = codes "none"
  backend_of (t ∷ ts) = codes "nftables"

  unfoldable pub report : FirewallReq → Bytes → Bool → Found → FirewallResult
  report req raw truncated found =
      let bans = count_bans found.sets req.ban_sets in
      let fetched = fetched_of req found.sets in
      record {
        backend = backend_of found.tables;
        nft_version = run_nft_version;
        ruleset_hash_sha256 = env.sha256_hex raw;
        tables = sort_rows table_less (values found.tables);
        chains = sort_rows chain_less (all_chains found.chains);
        sets = sort_rows set_less (values fetched.sets);
        bans = bans;
        warnings =
            warn_if truncated prefix_only
            ++ (warn_if (is_detail req && not req.detail_mode_allowed) detail_disabled
                ++ (bans.missing ++ fetched.warnings));
      }

  -- What follows `runNftListRuleset`, of what it returned.
  unfoldable pub inspect_ruleset :
      FirewallReq → Bytes × Bool × Option StartError → Result InspectError FirewallResult
  inspect_ruleset req (raw, truncated, some e) =
      if is_tool_missing e then ok no_firewall else err (nft_failed e)
  inspect_ruleset req (raw, truncated, none) = elim (table_filter req.table_filter) [
    | none ↦ err bad_filter
    | some filter ↦ elim (entries_of raw) [
      | none ↦ err parse_failed
      | some entries ↦ ok (report req raw truncated (found_of req filter entries))
    ]
  ]

  unfoldable pub firewall_inspect : Bytes → Result InspectError FirewallResult
  firewall_inspect param = elim (read_req env.parse_req param) [
    | none ↦ err bad_param
    | some req ↦
        inspect_ruleset req (run_capped env.sha256_hex firewall_ruleset_cap env.list_ruleset)
  ]
