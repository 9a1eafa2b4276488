-- ===== src/HttpServer/Identity.antt =====
-- Who is calling and what is asked for, in daemon/internal/daemon/httpserver/httpserver.go:
-- `callerIdentity`, `verifyClientCert`, the cut of the path and `truncateToolName`.
-- `strings.TrimSpace` is a parameter. The certificate is the leaf that crypto/tls verified, which
-- is also the first that the peer presented.
use host_health_mcp.Base.{
  ℕ, ◌+◌, ◌≤◌, ◌≡◌, inl, inr, Bool-cases, Bytes, Bool, true, false, not, ◌&&◌, ◌||◌, Option, none,
  some, List, [], ◌∷◌, ◌++◌, length, take, length-append, length-take, ◌==◌, leb, le→leb,
  if◌then◌else◌, arith,
}

pub data ExtKeyUsage : Type 0 where
  client_auth : ExtKeyUsage
  other_usage : ℕ → ExtKeyUsage

pub record Certificate : Type 0 where
  pub is_ca : Bool
  pub ext_key_usage : List ExtKeyUsage
  pub common_name : Bytes
  pub dns_names : List Bytes

abbrev pub is_empty : Bytes → Bool
is_empty [] = true
is_empty (_ ∷ _) = false

abbrev pub first_or_empty : List Bytes → Bytes
first_or_empty [] = []
first_or_empty (n ∷ _) = n

pub data CertError : Type 0 where
  no_verified_chain : CertError
  leaf_is_ca : CertError
  no_client_auth : CertError
  no_identity : CertError

-- The loop over `leaf.ExtKeyUsage`.
unfoldable pub has_client_auth : List ExtKeyUsage → Bool
has_client_auth [] = false
has_client_auth (client_auth ∷ us) = true
has_client_auth (other_usage n ∷ us) = has_client_auth us

abbrev pub no_names : List Bytes → Bool
no_names [] = true
no_names (_ ∷ _) = false

module _ (trim_space : Bytes → Bytes) where
  unfoldable pub caller_identity : Option Certificate → Bytes
  caller_identity none = []
  caller_identity (some cert) =
      if is_empty (trim_space cert.common_name)
      then first_or_empty cert.dns_names
      else trim_space cert.common_name

  -- The error that ends the handshake, if there is one.
  unfoldable pub verify_client_cert : Option Certificate → Option CertError
  verify_client_cert none = some no_verified_chain
  verify_client_cert (some leaf) =
      if leaf.is_ca
      then some leaf_is_ca
      else if not (has_client_auth leaf.ext_key_usage)
      then some no_client_auth
      else if is_empty (trim_space leaf.common_name) && no_names leaf.dns_names
      then some no_identity
      else none

abbrev pub slash_byte : ℕ
slash_byte = b'/'

-- `strings.Contains(name, "/")`
unfoldable pub has_slash : Bytes → Bool
has_slash [] = false
has_slash (c ∷ cs) = c == slash_byte || has_slash cs

-- What follows a prefix, if the text has it.
unfoldable pub after : Bytes → Bytes → Option Bytes
after [] s = some s
after (p ∷ ps) [] = none
after (p ∷ ps) (c ∷ cs) = if p == c then after ps cs else none

-- `strings.CutPrefix`
unfoldable pub cut_prefix : Bytes → Bytes → Bytes × Bool
cut_prefix s prefix = elim (after prefix s) [ none ↦ (s, false) | some rest ↦ (rest, true) ]

abbrev pub max_audit_tool_name : ℕ
max_audit_tool_name = 128

-- The bytes of "…".
abbrev pub ellipsis : Bytes
ellipsis = 0xE2 ∷ 0x80 ∷ 0xA6 ∷ []

unfoldable pub truncate_tool_name : Bytes → Bytes
truncate_tool_name name =
    if leb (length name) max_audit_tool_name
    then name
    else take max_audit_tool_name name ++ ellipsis

-- A truncated name is the name itself up to 128 bytes, and never has more than 131.
pub length-truncate_tool_name :
    (name : Bytes)
    → (length (truncate_tool_name name) ≤ max_audit_tool_name + 3)
      × (length name ≤ max_audit_tool_name → truncate_tool_name name ≡ name)
unfolding truncate_tool_name
length-truncate_tool_name name = (
  elim (Bool-cases (leb (length name) max_audit_tool_name)) [
    | inl short ↦ rw short (ground arith)
    | inr long ↦
        rw long (omega (arith, length-append (take 128 name) ellipsis, length-take 128 name))
  ],
  λ short. rw (le→leb (length name) 128 short),
)
