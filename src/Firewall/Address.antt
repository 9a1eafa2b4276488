-- ===== src/Firewall/Address.antt =====
-- The tests of an address, a prefix and a range against a query, and the reading of set elements,
-- in daemon/internal/helper/ops/firewall_lookup.go.
use host_health_mcp.Base.{
  Bytes, codes, Bool, true, false, not, ◌&&◌, ◌||◌, Option, none, some, List, [], ◌∷◌, ◌++◌,
  text_eq, ◌==◌, if◌then◌else◌,
}
use host_health_mcp.Base.Maybe.{◌>>=◌, ◌>>◌, only_if, or_else}
use host_health_mcp.Base.Result.{Result, ok, err}
use host_health_mcp.Helper.Deadline.{ℤ}
use host_health_mcp.Firewall.{Std}

-- `lookupQuery`: an address, or a masked prefix where `isCIDR` holds.
pub data LookupQuery (A P : Type 0) : Type 0 where
  one : A → LookupQuery A P
  block : P → LookupQuery A P

pub data QueryError : Type 0 where
  invalid_cidr invalid_address : QueryError

abbrev pub differ : Bool → Bool → Bool
differ true b = not b
differ false b = b

-- `strings.ContainsAny(s, chars)`, with the characters first; they are ASCII.
unfoldable pub contains_any : Bytes → Bytes → Bool
contains_any cs [] = false
contains_any [] (b ∷ bs) = false
contains_any (c ∷ cs) (b ∷ bs) = c == b || contains_any cs (b ∷ bs) || contains_any (c ∷ cs) bs

abbrev pub is_cidr : {A P : Type 0} → LookupQuery A P → Bool
is_cidr (one a) = false
is_cidr (block p) = true

module _ {Raw A P : Type 0} (std : Std Raw A P) where
  abbrev pub query_is6 : LookupQuery A P → Bool
  query_is6 (one a) = std.is6 a
  query_is6 (block p) = std.is6 (std.addr_of p)

  -- The `kind` of a query.
  unfoldable pub query_kind : LookupQuery A P → Bytes
  query_kind (one a) = if std.is6 a then codes "ipv6_addr" else codes "ipv4_addr"
  query_kind (block p) = if std.is6 (std.addr_of p) then codes "ipv6_cidr" else codes "ipv4_cidr"

  unfoldable pub parse_lookup_query : Bytes → Result QueryError (LookupQuery A P)
  parse_lookup_query text =
      let s = std.trim_space text in
      if contains_any (codes "/") s
      then elim (std.parse_prefix s) [
        | none ↦ err invalid_cidr
        | some p ↦ ok (block (std.masked p))
      ]
      else elim (std.parse_addr s) [ none ↦ err invalid_address | some a ↦ ok (one a) ]

  unfoldable pub addr_matches_query : A → LookupQuery A P → Bool
  addr_matches_query a (one b) = if differ (std.is6 a) (std.is6 b) then false else std.same a b
  addr_matches_query a (block p) =
      if differ (std.is6 a) (std.is6 (std.addr_of p)) then false else std.contains p a

  unfoldable pub prefix_matches_query : P → LookupQuery A P → Bool
  prefix_matches_query p (one b) =
      if differ (std.is6 (std.addr_of p)) (std.is6 b) then false else std.contains (std.masked p) b
  prefix_matches_query p (block q) =
      if differ (std.is6 (std.addr_of p)) (std.is6 (std.addr_of q))
      then false
      else std.contains (std.masked p) (std.addr_of q)
        || std.contains q (std.addr_of (std.masked p))

  unfoldable pub range_matches_query : A → A → LookupQuery A P → Bool
  range_matches_query lo hi (one b) =
      if differ (std.is6 lo) (std.is6 b) || differ (std.is6 hi) (std.is6 b)
      then false
      else std.at_most lo b && std.at_most b hi
  range_matches_query lo hi (block q) =
      if differ (std.is6 lo) (std.is6 (std.addr_of q))
        || differ (std.is6 hi) (std.is6 (std.addr_of q))
      then false
      else if std.contains q lo || std.contains q hi
      then true
      else std.at_most lo (std.addr_of q) && std.at_most (std.addr_of q) hi

  -- `setTypeMatchesQuery`, of the text before the first '.' if that is not the first byte.
  unfoldable pub before_dot : Bytes → Bytes
  before_dot [] = []
  before_dot (c ∷ cs) = if c == b'.' then [] else c ∷ before_dot cs

  abbrev pub first_component : Bytes → Bytes
  first_component [] = []
  first_component (c ∷ cs) = if c == b'.' then c ∷ cs else c ∷ before_dot cs

  unfoldable pub set_type_matches_query : Bytes → LookupQuery A P → Bool
  set_type_matches_query t q =
      let first = first_component t in
      if text_eq first (codes "ipv4_addr")
      then not (query_is6 q)
      else if text_eq first (codes "ipv6_addr")
      then query_is6 q
      else false

  -- `%s/%d`
  abbrev pub prefix_text : Bytes → ℤ → Bytes
  prefix_text addr len = addr ++ (b'/' ∷ std.int_text len)

  -- The `prefix` member of an object, where it names a prefix that matches.
  unfoldable pub prefix_hit : (Bytes → Option Raw) → LookupQuery A P → Option Bytes
  prefix_hit obj q = do
    raw ← obj (codes "prefix")
    fields ← std.as_prefix raw
    p ← std.parse_prefix (prefix_text fields.addr fields.len)
    only_if (prefix_matches_query p q)
    some (prefix_text fields.addr fields.len)

  abbrev pub two_texts : List Bytes → Option (Bytes × Bytes)
  two_texts (lo ∷ hi ∷ []) = some (lo, hi)
  two_texts _ = none

  -- The `range` member of an object, where it names a range that matches.
  unfoldable pub range_hit : (Bytes → Option Raw) → LookupQuery A P → Option Bytes
  range_hit obj q = do
    raw ← obj (codes "range")
    texts ← std.as_texts raw
    ends ← two_texts texts
    lo ← std.parse_addr ends.0
    hi ← std.parse_addr ends.1
    only_if (range_matches_query lo hi q)
    some (ends.0 ++ (b'-' ∷ ends.1))

  -- A text that is an address which matches.
  unfoldable pub addr_hit : Bytes → LookupQuery A P → Option Bytes
  addr_hit s q = do a ← std.parse_addr s; only_if (addr_matches_query a q); some s

  -- `elementValueOverlapsQuery`: the key of an element that matches.
  unfoldable pub element_value_overlaps_query : Raw → LookupQuery A P → Option Bytes
  element_value_overlaps_query val q = if std.is_empty val then none else elim (std.as_text val) [
    | some s ↦ addr_hit s q
    | none ↦ std.as_object val >>= λ obj. or_else (prefix_hit obj q) (range_hit obj q)
  ]

  -- `unwrapElem`
  unfoldable pub unwrap_elem : Raw → Raw × Option ℤ × Option ℤ
  unwrap_elem raw = elim (std.as_object raw) [
    | none ↦ (raw, none, none)
    | some obj ↦ elim (obj (codes "elem")) [
      | none ↦ (raw, none, none)
      | some inner ↦ elim (std.as_elem inner) [
        | none ↦ (inner, none, none)
        | some e ↦ (e.val, e.expires, e.timeout)
      ]
    ]
  ]
