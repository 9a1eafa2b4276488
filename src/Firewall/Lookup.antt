-- ===== src/Firewall/Lookup.antt =====
-- `FirewallLookup` of daemon/internal/helper/ops/firewall_lookup.go: its data and the pass over the sets.
-- A Go map is an association list; `sort.Strings` is insertion by the order of bytes.
pub mod Rules
pub mod Passes
pub mod SetRef
use host_health_mcp.Base.{
  ℕ, suc, Bytes, codes, text_eq, Bool, true, false, not, ◌&&◌, ◌||◌, Option, none, some, List, [],
  ◌∷◌, ◌++◌, length, ltb, ◌==◌, if◌then◌else◌, map,
}
use host_health_mcp.Base.Maybe.{◌>>=◌, ◌>>◌, only_if, or_else}
use host_health_mcp.Base.Eq.{bytes_eq}
use host_health_mcp.Base.Assoc
use host_health_mcp.Base.Result.{Result, ok, err}
use host_health_mcp.Helper.Deadline.{ℤ}
use host_health_mcp.Firewall.{Std}
use host_health_mcp.Firewall.Nft.{NftRule, NftSet, NftEntry, set_of, slash, set_key, stringify_type}
use host_health_mcp.Firewall.Address.{
  LookupQuery, is_cidr, contains_any, set_type_matches_query, unwrap_elem,
  element_value_overlaps_query, addr_hit, prefix_hit, range_hit,
}

pub data MatchKind : Type 0 where
  saddr_exact daddr_exact saddr_in_subnet daddr_in_subnet set_member set_subset_overlap : MatchKind

-- `FirewallSetHit`
pub record SetHit : Type 0 where
  pub match_kind : MatchKind
  pub family : Bytes
  pub table : Bytes
  pub set : Bytes
  pub element_key : Bytes
  pub expires_s : Option ℤ
  pub timeout_s : Option ℤ

-- `fwLookupSetIndex`, less the set itself
pub record SetIndex : Type 0 where
  pub matched_at : List SetHit
  pub has_match : Bool

abbrev pub Sets : Type 0
Sets = List (Bytes × SetIndex)

-- The order of Go strings.
unfoldable pub text_lt : Bytes → Bytes → Bool
text_lt a [] = false
text_lt [] (y ∷ b) = true
text_lt (x ∷ a) (y ∷ b) = if ltb x y then true else if x == y then text_lt a b else false

unfoldable pub insert_sorted : Bytes → List Bytes → List Bytes
insert_sorted k [] = k ∷ []
insert_sorted k (j ∷ js) = if text_lt j k then j ∷ insert_sorted k js else k ∷ j ∷ js

unfoldable pub sort_strings : List Bytes → List Bytes
sort_strings [] = []
sort_strings (k ∷ ks) = insert_sorted k (sort_strings ks)

abbrev pub keys : {V : Type 0} → List (Bytes × V) → List Bytes
keys [] = []
keys ((k, v) ∷ m) = k ∷ keys m

abbrev pub is_some : {V : Type 0} → Option V → Bool
is_some none = false
is_some (some v) = true

abbrev pub not_empty : {V : Type 0} → List V → Bool
not_empty [] = false
not_empty (v ∷ vs) = true

-- Adds a key to a set of keys.
unfoldable pub seen_with : Bytes → List Bytes → List Bytes
seen_with k [] = k ∷ []
seen_with k (j ∷ js) = if text_eq j k then j ∷ js else j ∷ seen_with k js

module _ {Raw A P : Type 0} (std : Std Raw A P) (q : LookupQuery A P) where
  -- `elementMatchesQuery`, with the kind and the place that pass 1 adds.
  unfoldable pub element_hit : NftSet Raw → Raw → Option SetHit
  element_hit s raw =
      let (val, expires, timeout) = unwrap_elem std raw in
      element_value_overlaps_query std val q >>= λ key. some (record {
        match_kind =
            if is_cidr q
            then set_subset_overlap
            else if contains_any (codes "/-") key
            then set_subset_overlap
            else set_member;
        family = s.family;
        table = s.table;
        set = s.name;
        element_key = key;
        expires_s = expires;
        timeout_s = timeout;
      })

  -- The loop over the elements of a set.
  unfoldable pub element_hits : NftSet Raw → List Raw → List SetHit
  element_hits s [] = []
  element_hits s (raw ∷ raws) =
      let rest = element_hits s raws in
      elim (element_hit s raw) [ none ↦ rest | some hit ↦ hit ∷ rest ]

  unfoldable pub index_set : Bool → NftSet Raw → SetIndex
  index_set include s =
      if set_type_matches_query std (stringify_type std s.type_of) q
      then (let hits = element_hits s s.elem in
          record { matched_at = if include then hits else []; has_match = not_empty hits })
      else record { matched_at = []; has_match = false }

  abbrev pub key_of : NftSet Raw → Bytes
  key_of s = set_key s.family s.table s.name

  -- Pass 1, with `SearchedSets`.
  unfoldable pub index_sets : Bool → List (NftEntry Raw) → Sets × ℕ → Sets × ℕ
  index_sets include [] acc = acc
  index_sets include (e ∷ es) (sets, n) = elim (set_of e) [
    | none ↦ index_sets include es (sets, n)
    | some s ↦ index_sets include es (Assoc.insert (key_of s) (index_set include s) sets, suc n)
  ]

  -- The hits of the sets, in the order of their keys.
  unfoldable pub emit_sets : List Bytes → Sets → List SetHit
  emit_sets [] sets = []
  emit_sets (k ∷ ks) sets =
      let rest = emit_sets ks sets in
      elim (Assoc.lookup k sets) [ none ↦ rest | some i ↦ i.matched_at ++ rest ]
