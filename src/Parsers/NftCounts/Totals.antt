-- ===== src/Parsers/NftCounts/Totals.antt =====
-- What the tables of daemon/internal/helper/ops/nft.go hold for a ruleset.
use host_health_mcp.Base.{
  ℕ, suc, ◌+◌, ◌≡◌, refl, sym, ap, ◌∙◌, Bytes, text_eq, text_eq_iff, true, Option, none, some, List,
  [], ◌∷◌, ◌++◌, inl, inr, arith, Bool-cases, append_assoc, append_nil, if◌then◌else◌,
}
use host_health_mcp.Base.Eq.{bytes_eq}
use host_health_mcp.Base.Assoc
use host_health_mcp.Parsers.NftCounts.{
  Counter, Table, CounterEntry, RuleEntry, Entry, Tables, table_key, table_at, count_rule,
  add_counter, group_tables,
}

-- The rules and the counters of the ruleset that are of a table.
abbrev rule_of : Bytes → Option RuleEntry → ℕ
rule_of key none = 0
rule_of key (some r) = if text_eq (table_key r.family r.table) key then 1 else 0

abbrev counter_of : Bytes → Option CounterEntry → List Counter
counter_of key none = []
counter_of key (some c) = if text_eq (table_key c.family c.table) key then c.counter ∷ [] else []

abbrev pub rules_of : Bytes → List Entry → ℕ
rules_of key [] = 0
rules_of key (e ∷ es) = rule_of key e.rule + rules_of key es

abbrev pub counters_of : Bytes → List Entry → List Counter
counters_of key [] = []
counters_of key (e ∷ es) = counter_of key e.counter ++ counters_of key es

table_at-insert :
    (k key : Bytes) (t : Table) (m : Tables)
    → table_at key (Assoc.insert k t m) ≡ (if text_eq k key then t else table_at key m)
table_at-insert k key t m = elim (Bool-cases (text_eq k key)) [
  | inl same ↦ rw (Assoc.lookup-insert k key t m, same) refl
  | inr other ↦ rw (Assoc.lookup-insert k key t m, other) refl
]

same_table : (k key : Bytes) (m : Tables) → text_eq k key ≡ true → table_at k m ≡ table_at key m
same_table k key m h = ap (λ j. table_at j m) ((text_eq_iff k key).0 h)

count_rule-table :
    (key : Bytes) (o : Option RuleEntry) (m : Tables)
    → ((table_at key (count_rule o m)).rule_count ≡ (table_at key m).rule_count + rule_of key o)
      × ((table_at key (count_rule o m)).hit_counters ≡ (table_at key m).hit_counters)
unfolding count_rule
count_rule-table key none m = (omega arith, refl)
count_rule-table key (some r) m =
    let k = table_key r.family r.table in
    let t = table_at k m in
    let put = table_at-insert k key (record t { rule_count = suc t.rule_count }) m in
    elim (Bool-cases (text_eq k key)) [
      | inl same ↦
          let here = same_table k key m same in
          rw (put, same)
            (
              omega (arith, ap (λ (u : Table). u.rule_count) here),
              ap (λ (u : Table). u.hit_counters) here,
            )
      | inr other ↦ rw (put, other) (omega arith, refl)
    ]

add_counter-table :
    (key : Bytes) (o : Option CounterEntry) (m : Tables)
    → ((table_at key (add_counter o m)).rule_count ≡ (table_at key m).rule_count)
      × ((table_at key (add_counter o m)).hit_counters
          ≡ (table_at key m).hit_counters ++ counter_of key o)
unfolding add_counter
add_counter-table key none m = (refl, sym (append_nil (table_at key m).hit_counters))
add_counter-table key (some c) m =
    let k = table_key c.family c.table in
    let t = table_at k m in
    let put =
      table_at-insert k key (record t { hit_counters = t.hit_counters ++ (c.counter ∷ []) }) m in
    elim (Bool-cases (text_eq k key)) [
      | inl same ↦
          let here = same_table k key m same in
          rw (put, same)
            (
              ap (λ (u : Table). u.rule_count) here,
              ap (λ (u : Table). u.hit_counters ++ (c.counter ∷ [])) here,
            )
      | inr other ↦ rw (put, other) (refl, sym (append_nil (table_at key m).hit_counters))
    ]

group_tables-from :
    (key : Bytes) (es : List Entry) (m : Tables)
    → ((table_at key (group_tables es m)).rule_count
        ≡ (table_at key m).rule_count + rules_of key es)
      × ((table_at key (group_tables es m)).hit_counters
          ≡ (table_at key m).hit_counters ++ counters_of key es)
unfolding group_tables
group_tables-from key [] m = (omega arith, sym (append_nil (table_at key m).hit_counters))
group_tables-from key (e ∷ es) m =
    let n = count_rule e.rule m in
    let (rules, counters) = group_tables-from key es (add_counter e.counter n) in
    let (same_rules, more_counters) = add_counter-table key e.counter n in
    let (more_rules, same_counters) = count_rule-table key e.rule m in
    (
      omega (arith, rules, same_rules, more_rules),
      counters
          ∙ ap (λ cs. cs ++ counters_of key es)
              (more_counters ∙ ap (λ cs. cs ++ counter_of key e.counter) same_counters)
          ∙ append_assoc (table_at key m).hit_counters (counter_of key e.counter)
              (counters_of key es),
    )

-- The table of the reply under any key counts the rules of the ruleset that are of that table, and
-- holds its counters in the order of the ruleset; a key without either has the empty table.
pub group_tables_lem :
    (key : Bytes) (es : List Entry)
    → ((table_at key (group_tables es [])).rule_count ≡ rules_of key es)
      × ((table_at key (group_tables es [])).hit_counters ≡ counters_of key es)
unfolding Assoc.lookup
group_tables_lem key es =
    let (rules, counters) = group_tables-from key es [] in (omega (arith, rules), counters)
