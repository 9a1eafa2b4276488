-- ===== src/Firewall/Inspect/Filtered.antt =====
-- The table filter of `FirewallInspect` in daemon/internal/helper/ops/firewall.go, over whole replies.
use host_health_mcp.Base.{
  ℕ, ◌≡◌, ◌≢◌, refl, sym, ◌∙◌, subst, Bytes, Bool, Option, none, some, List, [], ◌∷◌, inl, inr, All,
  Option-cases, Bool-cases, ◌==◌,
}
use host_health_mcp.Base.Eq.{bytes_eq}
use host_health_mcp.Base.Assoc
use host_health_mcp.Base.Result.{Result, ok, err}
use host_health_mcp.Helper.Exec.{StartError, run_capped}
use host_health_mcp.Helper.Ops.{Code}
use host_health_mcp.Firewall.{Std}
use host_health_mcp.Firewall.Nft.{NftEntry, slash}
use host_health_mcp.Firewall.Render.{SetRow, SetElem}
use host_health_mcp.Firewall.Walk.{
  FirewallReq, Filter, Found, table_filter, firewall_elem_budget, nothing_found,
}
use host_health_mcp.Firewall.Elements.{Fetched, cap_for, fetch_set, fetch_sets, put_listing}
use host_health_mcp.Firewall.Inspect.{
  FirewallResult, InspectError, Env, values, found_of, fetched_of, report, inspect_ruleset,
  entries_of, read_req, firewall_inspect,
}
use host_health_mcp.Firewall.Lookup.Passes.{is_tool_missing, firewall_ruleset_cap}
use host_health_mcp.Firewall.Rows.{All-sort_rows, All-insert, All-lookup}
use host_health_mcp.Firewall.Inspect.Kept.{
  InTable, FoundIn, table_filter_lem, All-all_chains, FoundIn-walk_nft_ruleset,
}

abbrev SetsIn : Bytes → List (Bytes × SetRow) → Type 0
SetsIn text m = All (λ s. InTable text s.family s.table) (values m)

-- The element phase changes no family and no table.
module _ (text : Bytes) (list_set : SetRow → ℕ → Result Code (List SetElem × ℕ)) (most : ℕ) where
  SetsIn-put_listing :
      (k : Bytes) (row : SetRow) (l : Result Code (List SetElem × ℕ)) (f : Fetched)
      → InTable text row.family row.table
      → SetsIn text f.sets
      → SetsIn text (put_listing k row l f).sets
  unfolding put_listing
  SetsIn-put_listing k row (err code) f here h = h
  SetsIn-put_listing k row (ok (elems, total)) f here h =
      All-insert (λ s. InTable text s.family s.table) k _ f.sets here h

  SetsIn-fetch_set :
      (k : Bytes) (row : SetRow) (f : Fetched)
      → InTable text row.family row.table
      → SetsIn text f.sets
      → SetsIn text (fetch_set list_set most k row f).sets
  unfolding fetch_set
  SetsIn-fetch_set k row f here h = elim (Bool-cases (cap_for most f.remaining == 0)) [
    | inl spent ↦
        rw (spent, values, All) (All-insert (λ s. InTable text s.family s.table) k _ f.sets here h)
    | inr left ↦ rw (left, values, All) (SetsIn-put_listing k row _ f here h)
  ]

  SetsIn-fetch_sets :
      (ks : List Bytes) (f : Fetched)
      → SetsIn text f.sets
      → SetsIn text (fetch_sets list_set most ks f).sets
  unfolding fetch_sets
  SetsIn-fetch_sets [] f h = h
  SetsIn-fetch_sets (k ∷ ks) f h = elim (Option-cases (Assoc.lookup k f.sets)) [
    | inl absent ↦ rw (absent, values, All, fetch_sets) (SetsIn-fetch_sets ks f h)
    | inr (row, here) ↦
        rw (here, values, All, fetch_sets)
          (SetsIn-fetch_sets ks _ (
            SetsIn-fetch_set k row f
              (All-lookup (λ s. InTable text s.family s.table) k row f.sets h here) h))
  ]

module _ {Raw A P : Type 0} (std : Std Raw A P) (env : Env Raw) where
  abbrev pub OnlyTable : Bytes → FirewallResult → Type 0
  OnlyTable text res =
      All (λ t. slash t.family t.name ≡ text) res.tables
      × All (λ c. slash c.family c.table ≡ text) res.chains
      × All (λ s. slash s.family s.table ≡ text) res.sets

  SetsIn-fetched_of :
      (req : FirewallReq) (text : Bytes) (sets : List (Bytes × SetRow))
      → SetsIn text sets
      → SetsIn text (fetched_of std env req sets).sets
  unfolding fetched_of
  SetsIn-fetched_of req text sets h = elim (Bool-cases req.include_set_elements) [
    | inl asked ↦
        rw (asked, values, All)
          (SetsIn-fetch_sets text _ _ _
            record { sets = sets; remaining = firewall_elem_budget; warnings = [] } h)
    | inr unasked ↦ rw (unasked, values, All) h
  ]

  report-OnlyTable :
      (req : FirewallReq) (raw : Bytes) (truncated : Bool) (text : Bytes) (found : Found)
      → FoundIn text found
      → OnlyTable text (report std env req raw truncated found)
  unfolding report
  report-OnlyTable req raw truncated text found (ts, cs, ss) = (
    All-sort_rows (λ t. InTable text t.family t.name) _ _ ts,
    All-sort_rows (λ c. InTable text c.family c.table) _ _ (All-all_chains text found.chains cs),
    All-sort_rows (λ s. InTable text s.family s.table) _ _
        (SetsIn-fetched_of req text found.sets ss),
  )

  abbrev OkIn : Bytes → Result InspectError FirewallResult → Type 0
  OkIn text (err e) = Unit
  OkIn text (ok res) = OnlyTable text res

  inspect_ruleset-OkIn :
      (req : FirewallReq) (listing : Bytes × Bool × Option StartError)
      → req.table_filter ≢ []
      → OkIn req.table_filter (inspect_ruleset std env req listing)
  unfolding inspect_ruleset found_of
  inspect_ruleset-OkIn req (raw, truncated, some e) full = elim (Bool-cases (is_tool_missing e)) [
    | inl missing ↦ rw (missing, OkIn) (tt, tt, tt)
    | inr other ↦ rw (other, OkIn) tt
  ]
  inspect_ruleset-OkIn req (raw, truncated, none) full =
      elim (Option-cases (table_filter req.table_filter)) [
        | inl malformed ↦ rw (malformed, OkIn) tt
        | inr (f, parsed) ↦ elim (Option-cases (entries_of std env raw)) [
          | inl unread ↦ rw (parsed, unread, OkIn) tt
          | inr (entries, read) ↦
              rw (parsed, read, OkIn)
                (filtered f entries (table_filter_lem req.table_filter f parsed full))
        ]
      ]
    where
      filtered :
          (f : Filter) (entries : List (NftEntry Raw))
          → (ab : Bytes × Bytes) × (f ≡ some ab) × (slash ab.0 ab.1 ≡ req.table_filter)
          → OnlyTable req.table_filter
              (report std env req raw truncated (found_of std env req f entries))
      filtered f entries (ab, same, is) = report-OnlyTable req raw truncated req.table_filter _ (
          rw same (
            FoundIn-walk_nft_ruleset req.table_filter std _ _ ab entries nothing_found is
              (tt, tt, tt)))

  -- A reply to a request with a table filter shows the tables, chains and sets of that table only:
  -- the family and the table of each, joined by a slash, are the text of the filter.
  pub firewall_inspect-OnlyTable :
      (param : Bytes) (req : FirewallReq) (res : FirewallResult)
      → read_req env.parse_req param ≡ some req
      → req.table_filter ≢ []
      → firewall_inspect std env param ≡ ok res
      → OnlyTable req.table_filter res
  unfolding firewall_inspect
  firewall_inspect-OnlyTable param req res parsed full done =
      let listing = run_capped env.sha256_hex firewall_ruleset_cap env.list_ruleset in
      let here : firewall_inspect std env param ≡ inspect_ruleset std env req listing =
        rw (parsed, firewall_inspect) refl in
      subst (OkIn req.table_filter) (sym here ∙ done) (inspect_ruleset-OkIn req listing full)
