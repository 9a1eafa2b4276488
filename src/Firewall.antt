-- ===== src/Firewall.antt =====
-- The firewall ops of the root helper: daemon/internal/helper/ops/firewall.go and
-- firewall_lookup.go. `Std` holds what they take from encoding/json, net/netip, fmt and strings:
-- a raw message of type `Raw` with its readings at the types that the source asks for, and the
-- addresses `A` and prefixes `P` of netip. Addresses with a zone are left out.
pub mod Address
pub mod Overlap
pub mod Nft
pub mod Lookup
pub mod Render
pub mod Walk
pub mod Elements
pub mod Inspect
pub mod Rows
mod Examples
use host_health_mcp.Base.{ℕ, Bytes, Bool, Option, List}
use host_health_mcp.Helper.Deadline.{ℤ}

pub record PrefixFields : Type 0 where
  pub addr : Bytes
  pub len : ℤ

pub record ElemFields (Raw : Type 0) : Type 0 where
  pub val : Raw
  pub expires : Option ℤ
  pub timeout : Option ℤ

pub record MatchFields (Raw : Type 0) : Type 0 where
  pub left : Raw
  pub right : Raw
  pub op : Bytes

pub record PayloadFields : Type 0 where
  pub protocol : Bytes
  pub field : Bytes

pub record Counter : Type 0 where
  pub packets : ℤ
  pub bytes : ℤ

-- `json.Unmarshal` of a raw message into a string, a map, lists and the structs of the source;
-- `json.Marshal` of a list; `netip.ParseAddr`, `ParsePrefix`, `Addr.Is6`, `==`, `a.Compare(b) <= 0`,
-- `Prefix.Addr`, `Masked` and `Contains`; `%d`; `strings.TrimSpace`.
pub record Std (Raw A P : Type 0) : Type 0 where
  pub is_empty : Raw → Bool
  pub text_of : Raw → Bytes
  pub as_text : Raw → Option Bytes
  pub as_object : Raw → Option (Bytes → Option Raw)
  pub as_list : Raw → Option (List Raw)
  pub as_texts : Raw → Option (List Bytes)
  pub as_prefix : Raw → Option PrefixFields
  pub as_elem : Raw → Option (ElemFields Raw)
  pub as_match : Raw → Option (MatchFields Raw)
  pub as_payload : Raw → Option PayloadFields
  pub as_counter : Raw → Option Counter
  pub marshal : List Raw → Bytes
  pub parse_addr : Bytes → Option A
  pub parse_prefix : Bytes → Option P
  pub is6 : A → Bool
  pub same : A → A → Bool
  pub at_most : A → A → Bool
  pub addr_of : P → A
  pub masked : P → P
  pub contains : P → A → Bool
  pub int_text : ℤ → Bytes
  pub trim_space : Bytes → Bytes
