-- ===== src/Firewall/Nft.antt =====
-- The ruleset of `nft -j list ruleset` as daemon/internal/helper/ops/firewall.go declares it, and the
-- type of a set.
use host_health_mcp.Base.{
  Bytes, codes, text_eq, Bool, true, false, Option, none, some, List, [], ◌∷◌, ◌++◌, ◌==◌,
  if◌then◌else◌,
}
use host_health_mcp.Base.Maybe.{or_else}
use host_health_mcp.Helper.Deadline.{ℤ}
use host_health_mcp.Firewall.{Std}

pub record NftTable : Type 0 where
  pub family : Bytes
  pub name : Bytes

pub record NftChain : Type 0 where
  pub family : Bytes
  pub table : Bytes
  pub name : Bytes
  pub type_of : Bytes
  pub hook : Bytes
  pub prio : Option ℤ
  pub policy : Bytes

pub record NftRule (Raw : Type 0) : Type 0 where
  pub family : Bytes
  pub table : Bytes
  pub chain : Bytes
  pub handle : ℤ
  pub expr : List Raw

pub record NftSet (Raw : Type 0) : Type 0 where
  pub family : Bytes
  pub table : Bytes
  pub name : Bytes
  pub type_of : Raw
  pub flags : List Bytes
  pub size : ℤ
  pub elem : List Raw

-- A pointer that json.Unmarshal left nil is `none`.
pub record NftEntry (Raw : Type 0) : Type 0 where
  pub table : Option NftTable
  pub chain : Option NftChain
  pub rule : Option (NftRule Raw)
  pub set : Option (NftSet Raw)
  pub map_of : Option (NftSet Raw)

-- `e.Set`, or else `e.Map`
abbrev pub set_of : {Raw : Type 0} → NftEntry Raw → Option (NftSet Raw)
set_of e = or_else e.set e.map_of

abbrev pub slash : Bytes → Bytes → Bytes
slash a b = a ++ (b'/' ∷ b)

abbrev pub set_key : Bytes → Bytes → Bytes → Bytes
set_key family table name = slash family (slash table name)

unfoldable pub join_dots : List Bytes → Bytes
join_dots [] = []
join_dots (t ∷ []) = t
join_dots (t ∷ u ∷ ts) = t ++ (b'.' ∷ join_dots (u ∷ ts))

unfoldable pub stringify_type : {Raw A P : Type 0} → Std Raw A P → Raw → Bytes
stringify_type std raw = if std.is_empty raw then [] else elim (std.as_text raw) [
  | some s ↦ s
  | none ↦ elim (std.as_texts raw) [ some ts ↦ join_dots ts | none ↦ std.text_of raw ]
]

-- `strings.Split(t, ".")`
unfoldable pub split_dots : Bytes → List Bytes
split_dots [] = [] ∷ []
split_dots (c ∷ cs) = elim (split_dots cs) [
  | [] ↦ []
  | part ∷ parts ↦ if c == b'.' then [] ∷ part ∷ parts else (c ∷ part) ∷ parts
]

unfoldable pub has_part : Bytes → List Bytes → Bool
has_part p [] = false
has_part p (t ∷ ts) = if text_eq t p then true else has_part p ts

-- `isV4Set` and `isV6Set`; of the empty type both are false, as it has no such part.
unfoldable pub is_v4_set : Bytes → Bool
is_v4_set t = has_part (codes "ipv4_addr") (split_dots t)

unfoldable pub is_v6_set : Bytes → Bool
is_v6_set t = has_part (codes "ipv6_addr") (split_dots t)
