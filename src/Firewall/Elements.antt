-- ===== src/Firewall/Elements.antt =====
-- The elements of sets in `FirewallInspect` of daemon/internal/helper/ops/firewall.go: which sets are
-- listed first, and how many elements of each go inline.
use host_health_mcp.Base.{
  ℕ, ◌+◌, ◌-◌, ◌*◌, Bytes, text_eq, Bool, true, false, not, ◌&&◌, Option, none, some, List, [], ◌∷◌,
  ◌++◌, length, ltb, ◌==◌, if◌then◌else◌,
}
use host_health_mcp.Base.Eq.{bytes_eq}
use host_health_mcp.Base.Assoc
use host_health_mcp.Base.Result.{Result, ok, err}
use host_health_mcp.Helper.Ops.{Code, tool_failed}
use host_health_mcp.Helper.Exec.{Child, StartError, no_tool, no_start, failed_tool, run_capped}
use host_health_mcp.Firewall.{Std}
use host_health_mcp.Firewall.Nft.{NftEntry, set_of, set_key, is_v4_set, is_v6_set}
use host_health_mcp.Firewall.Lookup.{keys, sort_strings}
use host_health_mcp.Firewall.Render.{SetElem, SetRow, render_elements}
use host_health_mcp.Firewall.Walk.{BanSet}

pub data Warning : Type 0 where
  ban_set_missing : Bytes → Warning
  list_set_failed : Bytes → Code → Warning
  nft_not_installed prefix_only detail_disabled : Warning

-- `errorCodeOf`
unfoldable pub error_code_of : StartError → Code
error_code_of (no_tool d) = d.code
error_code_of no_start = tool_failed
error_code_of (failed_tool d) = d.code

abbrev pub ban_key : BanSet → Bytes
ban_key b = set_key b.family b.table b.name

unfoldable pub mem_key : Bytes → List Bytes → Bool
mem_key k [] = false
mem_key k (j ∷ js) = if text_eq j k then true else mem_key k js

-- The keys of the ban sets that are there, each once, in the order of the manifest; `seen` holds
-- the ones before.
unfoldable pub ban_keys : List (Bytes × SetRow) → List BanSet → List Bytes → List Bytes
ban_keys sets [] seen = []
ban_keys sets (b ∷ bs) seen =
    let k = ban_key b in
    if Assoc.has_key k sets && not (mem_key k seen)
    then k ∷ ban_keys sets bs (k ∷ seen)
    else ban_keys sets bs seen

unfoldable pub unseen : List Bytes → List Bytes → List Bytes
unseen seen [] = []
unseen seen (k ∷ ks) = let rest = unseen seen ks in if mem_key k seen then rest else k ∷ rest

unfoldable pub order_set_keys : List (Bytes × SetRow) → List BanSet → List Bytes
order_set_keys sets bans =
    let first = ban_keys sets bans [] in first ++ sort_strings (unseen first (keys sets))

pub record BanStat : Type 0 where
  pub set : Bytes
  pub count : ℕ
  pub source : Bytes

pub record Bans : Type 0 where
  pub total_active_v4 : ℕ
  pub total_active_v6 : ℕ
  pub by_set : List BanStat
  pub missing : List Warning

-- The rows of the ban sets in the order of the manifest.
unfoldable pub count_bans : List (Bytes × SetRow) → List BanSet → Bans
count_bans sets [] = record { total_active_v4 = 0; total_active_v6 = 0; by_set = []; missing = [] }
count_bans sets (b ∷ bs) =
    let rest = count_bans sets bs in
    let row : ℕ → List BanStat =
      λ n. record { set = ban_key b; count = n; source = b.source } ∷ rest.by_set in
    elim (Assoc.lookup (ban_key b) sets) [
      | none ↦ record rest { by_set = row 0; missing = ban_set_missing (ban_key b) ∷ rest.missing }
      | some s ↦ record rest {
        by_set = row s.element_count;
        total_active_v4 =
            if is_v4_set s.type_of
            then s.element_count + rest.total_active_v4
            else rest.total_active_v4;
        total_active_v6 =
            if is_v6_set s.type_of
            then s.element_count + rest.total_active_v6
            else rest.total_active_v6;
      }
    ]

abbrev pub firewall_set_list_cap : ℕ
firewall_set_list_cap = 16 * 1024 * 1024

module _ {Raw A P : Type 0} (std : Std Raw A P) where
  -- The elements of the first set or map of a document, and how many it has.
  unfoldable pub first_set : List (NftEntry Raw) → ℕ → List SetElem × ℕ
  first_set [] cap = ([], 0)
  first_set (e ∷ es) cap = elim (set_of e) [
    | none ↦ first_set es cap
    | some s ↦ (render_elements std s.elem cap, length s.elem)
  ]

  -- `runNftListSet`, of what `RunCapped` returned; `parse` is json.Unmarshal at `fwNftRoot`.
  unfoldable pub listed :
      (Bytes → Option (List (NftEntry Raw)))
      → ℕ
      → Bytes × Bool × Option StartError
      → Result Code (List SetElem × ℕ)
  listed parse cap (out, truncated, some e) = err (error_code_of e)
  listed parse cap (out, truncated, none) = elim (parse out) [
    | none ↦ err tool_failed
    | some es ↦ ok (first_set es cap)
  ]

  unfoldable pub run_nft_list_set :
      (Bytes → Bytes)
      → (Bytes → Option (List (NftEntry Raw)))
      → (SetRow → Child)
      → SetRow
      → ℕ
      → Result Code (List SetElem × ℕ)
  run_nft_list_set sha256_hex parse nft row cap =
      listed parse cap (run_capped sha256_hex firewall_set_list_cap (nft row))

-- What the loop over the sets changes: the rows, the budget that is left, and the warnings.
pub record Fetched : Type 0 where
  pub sets : List (Bytes × SetRow)
  pub remaining : ℕ
  pub warnings : List Warning

abbrev pub cap_for : ℕ → ℕ → ℕ
cap_for max_set_elements remaining =
    if ltb remaining max_set_elements then remaining else max_set_elements

-- What one listing of a set changes.
unfoldable pub put_listing : Bytes → SetRow → Result Code (List SetElem × ℕ) → Fetched → Fetched
put_listing k row (err code) f = record f { warnings = f.warnings ++ (list_set_failed k code ∷ []) }
put_listing k row (ok (elems, total)) f = record f {
  sets =
      Assoc.insert k
        (record row {
          elements = elems;
          element_count = total;
          elements_truncated = if ltb (length elems) total then true else row.elements_truncated;
        })
        f.sets;
  remaining = f.remaining - length elems;
}

module _ (list_set : SetRow → ℕ → Result Code (List SetElem × ℕ)) (max_set_elements : ℕ) where
  unfoldable pub fetch_set : Bytes → SetRow → Fetched → Fetched
  fetch_set k row f =
      let cap = cap_for max_set_elements f.remaining in
      if cap == 0
      then record f { sets = Assoc.insert k (record row { elements_truncated = true }) f.sets }
      else put_listing k row (list_set row cap) f

  unfoldable pub fetch_sets : List Bytes → Fetched → Fetched
  fetch_sets [] f = f
  fetch_sets (k ∷ ks) f = elim (Assoc.lookup k f.sets) [
    | none ↦ fetch_sets ks f
    | some row ↦ fetch_sets ks (fetch_set k row f)
  ]
