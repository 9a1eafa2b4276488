-- ===== src/Plugin/Host.antt =====
-- `ResolveHost` of plugin/internal/client/client.go. `int_text` is `%d`.
use host_health_mcp.Base.{
  ℕ, zero, suc, Bytes, Bool, true, false, not, ◌&&◌, Option, none, some, [], ◌∷◌, ◌++◌, ◌==◌,
  if◌then◌else◌,
}
use host_health_mcp.Base.Result.{Result, ok, err, ◌>>=◌}
use host_health_mcp.Helper.Deadline.{ℤ, pos}

pub data HostError : Type 0 where
  empty_host unterminated garbage_after bare_ipv6 : HostError

pub record Config : Type 0 where
  pub port : ℤ
  pub dns_suffix : Bytes

-- `strings.Count(s, ":")` of one byte, with the byte first.
unfoldable pub count_byte : ℕ → Bytes → ℕ
count_byte b [] = 0
count_byte b (c ∷ cs) = if c == b then suc (count_byte b cs) else count_byte b cs

-- What stands after the first `]`, if there is one.
unfoldable pub after_close : Bytes → Option Bytes
after_close [] = none
after_close (c ∷ cs) = let rest = after_close cs in if c == b']' then some cs else rest

abbrev pub bracketed : Option Bytes → Result HostError Bool
bracketed none = err unterminated
bracketed (some []) = ok false
bracketed (some (c ∷ cs)) = if c == b':' then ok true else err garbage_after

abbrev pub by_colons : ℕ → Result HostError Bool
by_colons zero = ok false
by_colons (suc zero) = ok true
by_colons (suc (suc n)) = err bare_ipv6

unfoldable pub host_has_port : Bytes → Result HostError Bool
host_has_port [] = err empty_host
host_has_port (c ∷ cs) =
    if c == b'[' then bracketed (after_close (c ∷ cs)) else by_colons (count_byte b':' (c ∷ cs))

abbrev pub starts_bracket : Bytes → Bool
starts_bracket [] = false
starts_bracket (c ∷ cs) = c == b'['

abbrev two_or_more : ℕ → Bool
two_or_more (suc (suc n)) = true
two_or_more _ = false

unfoldable pub is_bare_ipv6 : Bytes → Bool
is_bare_ipv6 [] = false
is_bare_ipv6 (c ∷ cs) = if c == b'[' then false else two_or_more (count_byte b':' (c ∷ cs))

abbrev pub is_zero : ℕ → Bool
is_zero zero = true
is_zero (suc n) = false

abbrev pub port_or_default : ℤ → ℤ
port_or_default (pos zero) = pos 8443
port_or_default p = p

abbrev pub suffixed : Bytes → Bytes → Bytes
suffixed [] host = host
suffixed (d ∷ ds) host =
    if is_zero (count_byte b'.' host) && not (starts_bracket host)
    then host ++ (b'.' ∷ d ∷ ds)
    else host

abbrev pub in_brackets : Bytes → Bytes
in_brackets host = if is_bare_ipv6 host then b'[' ∷ (host ++ (b']' ∷ [])) else host

module _ (int_text : ℤ → Bytes) where
  abbrev pub with_port : Config → Bytes → Bytes
  with_port cfg host = in_brackets host ++ (b':' ∷ int_text (port_or_default cfg.port))

  unfoldable pub resolve_host : Config → Bytes → Result HostError Bytes
  resolve_host cfg host = do
    explicit ← host_has_port host
    ok (if explicit then host else with_port cfg (suffixed cfg.dns_suffix host))
