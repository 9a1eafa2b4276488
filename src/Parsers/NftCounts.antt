-- ===== src/Parsers/NftCounts.antt =====
-- daemon/internal/helper/ops/nft.go: the rules and the counters of each table. `parse` is json.Unmarshal
-- at `nftEnvelope`; the map of tables is an association list.
pub mod Totals
use host_health_mcp.Base.{
  ℕ, suc, ◌*◌, Bytes, Bool, Option, none, some, List, [], ◌∷◌, ◌++◌, if◌then◌else◌,
}
use host_health_mcp.Base.Eq.{bytes_eq}
use host_health_mcp.Base.Assoc
use host_health_mcp.Base.Result.{Result, ok, err}
use host_health_mcp.Helper.Deadline.{ℤ}
use host_health_mcp.Helper.Exec.{Child, StartError, run_capped}
use host_health_mcp.Firewall.Lookup.Passes.{firewall_ruleset_cap, is_tool_missing}

-- `NftCounter`
pub record Counter : Type 0 where
  pub name : Bytes
  pub packets : ℤ
  pub bytes : ℤ

-- `NftTable`
pub record Table : Type 0 where
  pub rule_count : ℕ
  pub hit_counters : List Counter

-- A counter or a rule of `nftEntry`, with the family and the table it is of.
pub record CounterEntry : Type 0 where
  pub family : Bytes
  pub table : Bytes
  pub counter : Counter

pub record RuleEntry : Type 0 where
  pub family : Bytes
  pub table : Bytes

pub record Entry : Type 0 where
  pub counter : Option CounterEntry
  pub rule : Option RuleEntry

pub data CountsError : Type 0 where
  not_run : StartError → CountsError
  not_parsed : CountsError

abbrev pub Tables : Type 0
Tables = List (Bytes × Table)

abbrev pub table_key : Bytes → Bytes → Bytes
table_key family table = family ++ (b':' ∷ table)

-- The zero value of a missing table.
abbrev pub or_new : Option Table → Table
or_new none = record { rule_count = 0; hit_counters = [] }
or_new (some t) = t

abbrev pub table_at : Bytes → Tables → Table
table_at key m = or_new (Assoc.lookup key m)

unfoldable pub count_rule : Option RuleEntry → Tables → Tables
count_rule none m = m
count_rule (some r) m =
    let key = table_key r.family r.table in
    let t = table_at key m in Assoc.insert key (record t { rule_count = suc t.rule_count }) m

unfoldable pub add_counter : Option CounterEntry → Tables → Tables
add_counter none m = m
add_counter (some c) m =
    let key = table_key c.family c.table in
    let t = table_at key m in
    Assoc.insert key (record t { hit_counters = t.hit_counters ++ (c.counter ∷ []) }) m

unfoldable pub group_tables : List Entry → Tables → Tables
group_tables [] m = m
group_tables (e ∷ es) m = group_tables es (add_counter e.counter (count_rule e.rule m))

unfoldable pub counted :
    (Bytes → Option (List Entry)) → Bytes × Bool × Option StartError → Result CountsError Tables
counted parse (stdout, truncated, some e) = if is_tool_missing e then ok [] else err (not_run e)
counted parse (stdout, truncated, none) = elim (parse stdout) [
  | none ↦ err not_parsed
  | some es ↦ ok (group_tables es [])
]

unfoldable pub nft_table_counts :
    (Bytes → Bytes) → (Bytes → Option (List Entry)) → Child → Result CountsError Tables
nft_table_counts sha256_hex parse nft =
    counted parse (run_capped sha256_hex firewall_ruleset_cap nft)
