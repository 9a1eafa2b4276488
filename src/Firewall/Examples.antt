-- ===== src/Firewall/Examples.antt =====
-- The firewall ops of daemon/internal/helper/ops at small inputs: addresses are numbers of one family,
-- a prefix is a first number and how many follow it, and a document is a text.
use host_health_mcp.Base.{
  ℕ, suc, ◌+◌, ◌≤◌, ◌≡◌, refl, subst, Bytes, codes, text_eq, Bool, true, false, ◌&&◌, ◌↔◌, Option,
  none, some, List, [], ◌∷◌, arith, leb, ltb, ◌==◌,
}
use host_health_mcp.Base.Result.{ok}
use host_health_mcp.Helper.Deadline.{pos}
use host_health_mcp.Helper.Exec.{Child, Read, read_loop, keep_room, run_capped}
use host_health_mcp.Firewall.{Std}
use host_health_mcp.Firewall.Address.{
  one, block, addr_matches_query, prefix_matches_query, range_matches_query, set_type_matches_query,
  before_dot, element_value_overlaps_query, unwrap_elem, addr_hit,
}
use host_health_mcp.Firewall.Overlap.{
  IsNetip, Query, cidr, InQuery, InPrefix, InRange, query, matches_query_iff,
}
use host_health_mcp.Firewall.Nft.{NftTable, NftSet, NftEntry, stringify_type}
use host_health_mcp.Firewall.Lookup.{key_of, element_hit, index_sets}
use host_health_mcp.Firewall.Lookup.Rules.{set_ref, evaluate_right_side}
use host_health_mcp.Firewall.Lookup.SetRef.{set_ref_lem}
use host_health_mcp.Firewall.Walk.{FirewallReq, table_filter, cut_slash}
use host_health_mcp.Firewall.Inspect.{
  FirewallResult, Env, found_of, report, inspect_ruleset, entries_of, firewall_inspect,
}
use host_health_mcp.Firewall.Inspect.Filtered.{OnlyTable, firewall_inspect-OnlyTable}

abbrev Doc : Type 0
Doc = Bytes

abbrev Span : Type 0
Span = ℕ × ℕ

abbrev one_byte : Bytes → Option ℕ
one_byte (c ∷ []) = some c
one_byte _ = none

abbrev is_nil : Bytes → Bool
is_nil [] = true
is_nil (c ∷ cs) = false

abbrev small_std : Std Doc ℕ Span
small_std = record {
  is_empty = is_nil;
  text_of = λ d. d;
  as_text = λ d. some d;
  as_object = λ d. none;
  as_list = λ d. none;
  as_texts = λ d. none;
  as_prefix = λ d. none;
  as_elem = λ d. none;
  as_match = λ d. none;
  as_payload = λ d. none;
  as_counter = λ d. none;
  marshal = λ ds. [];
  parse_addr = one_byte;
  parse_prefix = λ d. none;
  is6 = λ a. false;
  same = ◌==◌;
  at_most = leb;
  addr_of = λ p. p.0;
  masked = λ p. p;
  contains = λ p a. leb p.0 a && ltb a (p.0 + suc p.1);
  int_text = λ n. [];
  trim_space = λ d. d;
}

small_std-IsNetip : IsNetip small_std
small_std-IsNetip = record {
  num = λ a. a;
  size = λ p. suc p.1;
  same_iff = λ a b. ground arith;
  num_inj = λ a b f e. e;
  at_most_iff = λ a b f. ground arith;
  is6_masked = λ p. refl;
  size_pos = λ p. omega arith;
  contains_iff = λ (b, n) a. ground arith;
}

-- The prefix of the numbers 8 to 11.
abbrev eights : Query small_std small_std-IsNetip
eights = cidr (8, 3)

matches_query_iff_example :
    ((a : ℕ)
      → (addr_matches_query small_std a (query small_std small_std-IsNetip eights) ≡ true)
        ↔ InQuery small_std small_std-IsNetip eights a)
    × ((p : Span)
        → (prefix_matches_query small_std p (query small_std small_std-IsNetip eights) ≡ true) ↔ (
            (x : ℕ) × InPrefix small_std small_std-IsNetip p x
            × InQuery small_std small_std-IsNetip eights x))
    × ((lo hi : ℕ)
        → false ≡ false
        → lo ≤ hi
        → (range_matches_query small_std lo hi (query small_std small_std-IsNetip eights) ≡ true)
          ↔ ((x : ℕ) × InRange small_std small_std-IsNetip lo hi x
              × InQuery small_std small_std-IsNetip eights x))
unfolding small_std-IsNetip
matches_query_iff_example = matches_query_iff small_std small_std-IsNetip eights

-- A range around the prefix matches, and a range below it does not.
around_eights :
    (range_matches_query small_std 3 40 (block (8, 3)) ≡ true)
    × (range_matches_query small_std 3 7 (block (8, 3)) ≡ false)
unfolding range_matches_query
around_eights = (refl, refl)

abbrev set_f : Bytes → NftSet Doc
set_f table = record {
  family = codes "ip";
  table = table;
  name = codes "bans";
  type_of = codes "ipv4_addr";
  flags = [];
  size = pos 0;
  elem = codes "A" ∷ codes "B" ∷ [];
}

abbrev table_f : Bytes → NftTable
table_f name = record { family = codes "ip"; name = name }

abbrev empty_entry : NftEntry Doc
empty_entry = record { table = none; chain = none; rule = none; set = none; map_of = none }

abbrev entries : List (NftEntry Doc)
entries =
    record empty_entry { table = some (table_f (codes "f")) }
    ∷ record empty_entry { table = some (table_f (codes "g")) }
    ∷ record empty_entry { set = some (set_f (codes "f")) }
    ∷ record empty_entry { set = some (set_f (codes "g")) }
    ∷ []

abbrev OtherKey : Option (NftSet Doc) → Type 0
OtherKey none = Unit {0}
OtherKey (some s) = text_eq (key_of small_std (one b'B') s) (codes "ip/f/bans") ≡ false

other_table :
    (s : NftSet Doc)
    → some (set_f (codes "g")) ≡ some s
    → text_eq (key_of small_std (one b'B') s) (codes "ip/f/bans") ≡ false
unfolding text_eq
other_table s h = subst OtherKey h refl

-- The set stands after a table and before another table.
set_ref_lem_example :
    evaluate_right_side small_std
      (one b'B')
      (codes "ip")
      (codes "f")
      (index_sets small_std (one b'B') false entries ([], 0)).0
      (codes "@bans")
    ≡ some (record { set_name = codes "bans"; matched_value = codes "@bans"; kind = set_ref })
unfolding set_type_matches_query text_eq stringify_type before_dot element_hit
    element_value_overlaps_query unwrap_elem addr_hit addr_matches_query
set_ref_lem_example =
    set_ref_lem small_std (one b'B') false
      (record empty_entry { table = some (table_f (codes "f")) }
        ∷ record empty_entry { table = some (table_f (codes "g")) }
        ∷ [])
      (record empty_entry { set = some (set_f (codes "g")) } ∷ [])
      (record empty_entry { set = some (set_f (codes "f")) }) (set_f (codes "f")) (codes "@bans")
      refl (other_table, tt) refl refl

abbrev quiet : Child
quiet = record {
  path = codes "nft";
  argv = [];
  start = none;
  writes = [];
  reads = record { bytes = codes "r"; last = true } ∷ [];
  stdout_lines = [];
  scan_error = none;
  stderr = [];
  wait = λ signalled. none;
}

abbrev req_f : FirewallReq
req_f = record {
  mode = codes "summary";
  table_filter = codes "ip/f";
  include_set_elements = true;
  detail_mode_allowed = false;
  ban_sets =
      record { family = codes "ip"; table = codes "f"; name = codes "bans"; source = [] } ∷ [];
  max_set_elements = pos 1;
  max_rule_text_bytes = pos 0;
}

abbrev env_f : Env Doc
env_f = record {
  sha256_hex = λ s. s;
  fields = λ s. [];
  parse_req = λ p. some req_f;
  parse = λ s. some entries;
  list_ruleset = quiet;
  version = quiet;
  list_set = λ row. quiet;
}

abbrev reply_f : FirewallResult
reply_f =
    report small_std env_f req_f (codes "r") false
      (found_of small_std env_f req_f (some (codes "ip", codes "f")) entries)

replies : firewall_inspect small_std env_f (codes "q") ≡ ok reply_f
unfolding firewall_inspect inspect_ruleset entries_of table_filter cut_slash
    host_health_mcp.Helper.Exec.capped_from read_loop keep_room
replies = refl

firewall_inspect-OnlyTable_example : OnlyTable small_std env_f (codes "ip/f") reply_f
firewall_inspect-OnlyTable_example =
    firewall_inspect-OnlyTable small_std env_f (codes "q") req_f reply_f refl
      (λ e. ground (arith, e)) replies
