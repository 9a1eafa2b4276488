-- ===== src/Redact.antt =====
-- `Filter.Redact` of daemon/internal/daemon/redact/redact.go.
-- The regexps of a filter enter as what Go's regexp says they match, `net/netip` as a parser of
-- addresses with the two tests of an address, an allowed prefix as what it contains, and
-- `strings.Fields` as `fields`.
pub mod Paths
pub mod Rules
mod Examples
use host_health_mcp.Base.{
  inl, inr, ℕ, Bytes, codes, Bool, true, false, not, ◌&&◌, ◌||◌, Option, none, some, List, [], ◌∷◌,
  ◌++◌, map, ◌==◌, if◌then◌else◌,
}

abbrev pub Matcher : Type 0 → Type 0
Matcher A = A → Bool

pub record Filter (A : Type 0) : Type 0 where
  pub scrub_patterns : List (Matcher Bytes)
  pub ipv4_allow : List (Matcher A)
  pub ipv6_allow : List (Matcher A)
  pub sensitive_dirs : List Bytes
  pub aws_key : Matcher Bytes
  pub jwt : Matcher Bytes
  pub uuid : Matcher Bytes
  pub big_blob : Matcher Bytes
  pub safe_token : Matcher Bytes

unfoldable pub any_matches : {A : Type 0} → List (Matcher A) → A → Bool
any_matches [] t = false
any_matches (m ∷ ms) t = if m t then true else any_matches ms t

unfoldable pub has_prefix : Bytes → Bytes → Bool
has_prefix t [] = true
has_prefix [] (d ∷ ds) = false
has_prefix (c ∷ cs) (d ∷ ds) = c == d && has_prefix cs ds

-- What follows the first '=' of a token.
unfoldable pub after_equals : Bytes → Option Bytes
after_equals [] = none
after_equals (c ∷ cs) = if c == b'=' then some cs else after_equals cs

abbrev pub value_has_prefix : Option Bytes → Bytes → Bool
value_has_prefix none d = false
value_has_prefix (some v) d = has_prefix v d

-- The loop over `SensitiveDirs`.
unfoldable pub in_sensitive_dir : List Bytes → Bytes → Bool
in_sensitive_dir [] t = false
in_sensitive_dir ([] ∷ ds) t = in_sensitive_dir ds t
in_sensitive_dir ((d ∷ dir) ∷ ds) t =
    if has_prefix t (d ∷ dir)
    then true
    else if value_has_prefix (after_equals t) (d ∷ dir)
    then true
    else in_sensitive_dir ds t

-- `strings.ContainsAny(t, "@.")`
unfoldable pub has_at_or_dot : Bytes → Bool
has_at_or_dot [] = false
has_at_or_dot (c ∷ cs) = c == b'@' || c == b'.' || has_at_or_dot cs

abbrev pub placeholder : Bytes
placeholder = codes "<redacted>"

-- `strings.Join(parts, " ")`
unfoldable pub join : List Bytes → Bytes
join [] = []
join (p ∷ []) = p
join (p ∷ q ∷ ps) = p ++ (b' ' ∷ join (q ∷ ps))

module _ {A : Type 0} (parse_addr : Bytes → Option A) (is4 is4in6 : A → Bool)
    (fields : Bytes → List Bytes) (f : Filter A) where
  unfoldable pub addr_allowed : A → Bool
  addr_allowed a =
      if is4 a || is4in6 a then any_matches f.ipv4_allow a else any_matches f.ipv6_allow a

  -- The end of `tokenSafe`, for a token that is no address.
  unfoldable pub shape_safe : Bytes → Bool
  shape_safe t =
      if in_sensitive_dir f.sensitive_dirs t
      then false
      else if f.aws_key t
      then false
      else if f.jwt t
      then false
      else if f.uuid t
      then true
      else if not (has_at_or_dot t) && f.big_blob t
      then false
      else f.safe_token t

  abbrev pub unscrubbed : Bytes → Option A → Bool
  unscrubbed t (some a) = addr_allowed a
  unscrubbed t none = shape_safe t

  unfoldable pub token_safe : Bytes → Bool
  token_safe t = if any_matches f.scrub_patterns t then false else unscrubbed t (parse_addr t)

  abbrev pub redact_token : Bytes → Bytes
  redact_token t = if token_safe t then t else placeholder

  unfoldable pub redact : Bytes → Bytes
  redact [] = []
  redact (c ∷ cs) = join (map redact_token (fields (c ∷ cs)))
