-- ===== src/Plugin/Examples.antt =====
-- The plugin at a small session: a daemon whose schema version is 2.0.0, a world that counts contacts,
-- values that are texts.
use host_health_mcp.Base.{
  ℕ, suc, ◌-◌, ◌≡◌, refl, Bytes, codes, text_eq, true, false, Option, none, some, [], ◌∷◌,
}
use host_health_mcp.Base.Assoc
use host_health_mcp.Base.Result.{ok}
use host_health_mcp.Helper.Deadline.{ℤ, pos}
use host_health_mcp.Plugin.Host.{
  Config, count_byte, after_close, host_has_port, is_bare_ipv6, resolve_host,
}
use host_health_mcp.Plugin.Resolved.{IsResolved, resolve_host-IsResolved}
use host_health_mcp.Plugin.Client.{received, call}
use host_health_mcp.Plugin.Compat.{
  Reason, incompatible, major_mismatch, classify, parse_major, before_first_dot,
  record_compat_from_envelope,
}
use host_health_mcp.Plugin.Server.{
  Tool, Request, tool_error, schema_incompatible, Env, Server, State, find_tool, gate, probe_compat,
}
use host_health_mcp.Plugin.Serve.{call_tool, call_on, is_notification, serve}
use host_health_mcp.Plugin.Session.{serve-call_tool_incompatible}
use host_health_mcp.Plugin.Exchanges.{ids, ids-serve}

abbrev cfg : Config
cfg = record { port = pos 0; dns_suffix = codes "lan" }

abbrev number : ℤ → Bytes
number n = codes "8443"

-- A bare name gets the suffix and the port, a literal the port only.
resolutions :
    (resolve_host number cfg (codes "db1") ≡ ok (codes "db1.lan:8443"))
    × (resolve_host number cfg (codes "[::1]") ≡ ok (codes "[::1]:8443"))
    × (resolve_host number cfg (codes "db1:9") ≡ ok (codes "db1:9"))
unfolding resolve_host host_has_port count_byte after_close is_bare_ipv6
resolutions = (refl, refl, refl)

IsResolved-bracketed : IsResolved number cfg (codes "[::1]") (codes "[::1]:8443")
unfolding count_byte
IsResolved-bracketed =
    resolve_host-IsResolved number cfg refl refl (codes "[::1]") (codes "[::1]:8443") resolutions.1

abbrev digit : Bytes → Option ℤ
digit (d ∷ []) = some (pos (d - b'0'))
digit _ = none

abbrev read_line : Bytes → Option Request
read_line (c ∷ []) = some (record { id = codes "7"; method = codes "tools/call"; params = [] })
read_line (c ∷ d ∷ []) = some (record { id = []; method = codes "ping"; params = [] })
read_line _ = none

abbrev env : Env Bytes ℕ
env = record {
  parse_request = read_line;
  parse_params = λ p. some (record { name = codes "sys"; arguments = [] });
  as_string = λ v. some v;
  marshal = λ m. none;
  can_marshal = λ r. true;
  schema_version = λ raw. some raw;
  parse_error = λ out. none;
  atoi = digit;
  int_text = number;
  post = λ w within url body. (suc w, received 200 (codes "2.0.0"));
}

abbrev system_tool : Tool Bytes
system_tool = record {
  name = codes "sys";
  daemon_rpc = codes "system";
  description = [];
  timeout_s = 3;
  args_properties = [];
  args_required = [];
}

abbrev srv : Server Bytes
srv = record {
  config = cfg;
  tools = system_tool ∷ [];
  default_host = codes "db1";
  server_name = [];
  version = [];
}

abbrev bad : Reason
bad = major_mismatch (codes "2.0.0")

abbrev known : State ℕ
known = record { compat = (codes "db1.lan:8443", incompatible bad) ∷ []; world = 1 }

-- The first call probes, finds the other major version, and does not go further.
probes :
    call_tool env srv [] (record { compat = []; world = 0 })
    ≡ (known, tool_error (schema_incompatible bad))
unfolding call_tool call_on gate probe_compat call record_compat_from_envelope classify parse_major
    before_first_dot find_tool resolve_host host_has_port count_byte after_close is_bare_ipv6
    text_eq Assoc.lookup Assoc.insert
probes = refl

serve-call_tool_incompatible_example :
    call_tool env srv [] (serve env srv ((codes "c", false) ∷ []) known).0
    ≡ ((serve env srv ((codes "c", false) ∷ []) known).0, tool_error (schema_incompatible bad))
unfolding find_tool text_eq Assoc.lookup
serve-call_tool_incompatible_example =
    serve-call_tool_incompatible env srv (codes "db1.lan:8443") bad ((codes "c", false) ∷ []) known
      [] (record { name = codes "sys"; arguments = [] }) system_tool refl refl refl refl
      resolutions.0

ids-serve_example :
    ids env srv
      (serve env srv
        ((codes "c", false) ∷ (codes "nn", false) ∷ (codes "bad", false) ∷ (codes "c", true) ∷ [])
        known).1
    ≡ codes "7" ∷ [] ∷ []
unfolding is_notification text_eq
ids-serve_example =
    ids-serve env srv (λ r. refl)
      ((codes "c", false) ∷ (codes "nn", false) ∷ (codes "bad", false) ∷ (codes "c", true) ∷ [])
      known
