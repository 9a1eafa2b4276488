-- ===== src/Firewall/Render.antt =====
-- Rows of the reply of `FirewallInspect` in daemon/internal/helper/ops/firewall.go, and how rules and
-- set elements are rendered into them.
use host_health_mcp.Base.{
  ℕ, zero, suc, Bytes, codes, Bool, Option, none, some, List, [], ◌∷◌, ◌++◌, if◌then◌else◌,
}
use host_health_mcp.Base.Maybe.{◌>>=◌, or_else}
use host_health_mcp.Helper.Deadline.{ℤ}
use host_health_mcp.Firewall.{Std, Counter}
use host_health_mcp.Firewall.Nft.{NftRule}
use host_health_mcp.Firewall.Address.{two_texts, prefix_text}

pub record Rule : Type 0 where
  pub handle : ℤ
  pub expr : Bytes
  pub counter : Option Counter

pub record SetElem : Type 0 where
  pub key : Bytes
  pub expires_s : Option ℤ
  pub timeout_s : Option ℤ

pub record TableMeta : Type 0 where
  pub family : Bytes
  pub name : Bytes
  pub chain_count : ℕ
  pub set_count : ℕ
  pub map_count : ℕ
  pub rule_count : ℕ

pub record Chain : Type 0 where
  pub family : Bytes
  pub table : Bytes
  pub name : Bytes
  pub type_of : Bytes
  pub hook : Bytes
  pub prio : Option ℤ
  pub policy : Bytes
  pub rule_count : ℕ
  pub rules : List Rule

pub record SetRow : Type 0 where
  pub family : Bytes
  pub table : Bytes
  pub name : Bytes
  pub type_of : Bytes
  pub flags : List Bytes
  pub size_limit : ℤ
  pub element_count : ℕ
  pub elements : List SetElem
  pub elements_truncated : Bool
  pub is_map : Bool

module _ {Raw A P : Type 0} (std : Std Raw A P) where
  -- The last counter among the expressions of a rule.
  unfoldable pub find_counter : List Raw → Option Counter
  find_counter [] = none
  find_counter (raw ∷ raws) =
      or_else (find_counter raws)
        (std.as_object raw >>= λ probe. probe (codes "counter") >>= λ c. std.as_counter c)

  unfoldable pub render_rule : NftRule Raw → Rule
  render_rule r = record {
    handle = r.handle;
    expr = std.marshal r.expr;
    counter = find_counter r.expr;
  }

  prefix_form : (Bytes → Option Raw) → Option Bytes
  prefix_form obj = do
    raw ← obj (codes "prefix")
    fields ← std.as_prefix raw
    some (prefix_text std fields.addr fields.len)

  range_form : (Bytes → Option Raw) → Option Bytes
  range_form obj = do
    raw ← obj (codes "range")
    texts ← std.as_texts raw
    ends ← two_texts std texts
    some (ends.0 ++ (b'-' ∷ ends.1))

  abbrev pub or_raw : Raw → Option Bytes → Bytes
  or_raw raw none = std.text_of raw
  or_raw raw (some s) = s

  unfoldable pub render_element_val : Raw → Bytes
  unfolding prefix_form range_form
  render_element_val raw = if std.is_empty raw then [] else elim (std.as_text raw) [
    | some s ↦ s
    | none ↦ or_raw raw (std.as_object raw >>= λ obj. or_else (prefix_form obj) (range_form obj))
  ]

  abbrev bare : Bytes → SetElem
  bare key = record { key = key; expires_s = none; timeout_s = none }

  unfoldable pub render_one_element : Raw → SetElem
  render_one_element raw = elim (std.as_text raw) [
    | some s ↦ bare s
    | none ↦ elim (std.as_object raw) [
      | none ↦ bare (std.text_of raw)
      | some obj ↦ elim (obj (codes "elem")) [
        | none ↦ bare (render_element_val raw)
        | some inner ↦ elim (std.as_elem inner) [
          | none ↦ bare (std.text_of inner)
          | some e ↦ record {
            key = render_element_val e.val;
            expires_s = e.expires;
            timeout_s = e.timeout;
          }
        ]
      ]
    ]
  ]

  -- `renderElements`: the first `cap` elements.
  unfoldable pub render_elements : List Raw → ℕ → List SetElem
  render_elements [] cap = []
  render_elements (raw ∷ raws) zero = []
  render_elements (raw ∷ raws) (suc cap) = render_one_element raw ∷ render_elements raws cap
