-- ===== src/Plugin/Server.antt =====
-- The MCP server of plugin/internal/mcp/mcp.go: its data, the descriptors of tools/list, the body for
-- the daemon, and the schema gate. What a response says is an `Answer`, whose texts are the values of their
-- format strings.
use host_health_mcp.Base.{
  ℕ, ◌*◌, ◌%◌, ◌^◌, Bytes, codes, text_eq, Bool, Option, none, some, List, [], ◌∷◌, ◌==◌,
  if◌then◌else◌,
}
use host_health_mcp.Base.Eq.{bytes_eq}
use host_health_mcp.Base.Assoc
use host_health_mcp.Helper.Deadline.{ℤ}
use host_health_mcp.Plugin.Host.{HostError, Config}
use host_health_mcp.Plugin.Client.{
  DaemonError, ErrorBody, CallResult, replied, refused, failed, Exchange, call,
}
use host_health_mcp.Plugin.Compat.{
  Reason, HostCompat, compatible, incompatible, Compat, or_unset, record_compat_from_envelope,
}

-- `Tool`; `Json` is a decoded value.
pub record Tool (Json : Type 0) : Type 0 where
  pub name : Bytes
  pub daemon_rpc : Bytes
  pub description : Bytes
  pub timeout_s : ℕ
  pub args_properties : List (Bytes × Json)
  pub args_required : List Bytes

pub record Request : Type 0 where
  pub id : Bytes
  pub method : Bytes
  pub params : Bytes

pub record CallParams (Json : Type 0) : Type 0 where
  pub name : Bytes
  pub arguments : List (Bytes × Json)

pub data ProbeError : Type 0 where
  transport_failed : ProbeError
  daemon_refused : DaemonError → ProbeError

pub data ToolError : Type 0 where
  host_required marshal_failed transport : ToolError
  bad_host : HostError → ToolError
  schema_incompatible : Reason → ToolError
  schema_probe : ProbeError → ToolError
  daemon_error : DaemonError → ToolError

-- A property of an input schema: the host, with its default, or one of the tool.
pub data Property (Json : Type 0) : Type 0 where
  host_property : Bytes → Property Json
  own_property : Json → Property Json

pub record ToolDescriptor (Json : Type 0) : Type 0 where
  pub name : Bytes
  pub description : Bytes
  pub properties : List (Bytes × Property Json)
  pub required : List Bytes

pub data Answer (Json : Type 0) : Type 0 where
  initialized : Bytes → Bytes → Answer Json
  pong : Answer Json
  listing : List (ToolDescriptor Json) → Answer Json
  content : Bytes → Answer Json
  tool_error : ToolError → Answer Json
  parse_error bad_params : Answer Json
  method_not_found unknown_tool : Bytes → Answer Json

pub record Response (Json : Type 0) : Type 0 where
  pub id : Bytes
  pub answer : Answer Json

-- The parameters: encoding/json at the types of the source, strconv.Atoi, `%d`, and the network.
pub record Env (Json W : Type 0) : Type 0 where
  pub parse_request : Bytes → Option Request
  pub parse_params : Bytes → Option (CallParams Json)
  pub as_string : Json → Option Bytes
  pub marshal : List (Bytes × Json) → Option Bytes
  pub can_marshal : Response Json → Bool
  pub schema_version : Bytes → Option Bytes
  pub parse_error : Bytes → Option ErrorBody
  pub atoi : Bytes → Option ℤ
  pub int_text : ℤ → Bytes
  pub post : W → ℕ → Bytes → Bytes → W × Exchange

-- `Server`, less the cache.
pub record Server (Json : Type 0) : Type 0 where
  pub config : Config
  pub tools : List (Tool Json)
  pub default_host : Bytes
  pub server_name : Bytes
  pub version : Bytes

-- The cache of verdicts, and the world behind the network.
pub record State (W : Type 0) : Type 0 where
  pub compat : Compat
  pub world : W

abbrev pub manifest : Bytes
manifest = codes "manifest"

abbrev pub second : ℕ
second = 1_000_000_000

-- `time.Duration(TimeoutS) * time.Second`, which wraps around, or ten seconds.
abbrev pub timeout_of : ℕ → ℕ
timeout_of timeout_s =
    let timeout = timeout_s * second % 2 ^ 64 in if timeout == 0 then 10 * second else timeout

unfoldable pub find_tool : {Json : Type 0} → Bytes → List (Tool Json) → Option (Tool Json)
find_tool name [] = none
find_tool name (t ∷ ts) =
    let rest = find_tool name ts in if text_eq t.name name then some t else rest

-- The arguments to forward: all but the host.
unfoldable pub forwarded : {Json : Type 0} → List (Bytes × Json) → List (Bytes × Json)
forwarded [] = []
forwarded ((k, v) ∷ m) =
    let rest = forwarded m in if text_eq k (codes "host") then rest else (k, v) ∷ rest

unfoldable pub properties_of :
    {Json : Type 0}
    → List (Bytes × Json)
    → List (Bytes × Property Json)
    → List (Bytes × Property Json)
properties_of [] props = props
properties_of ((k, v) ∷ m) props =
    if text_eq k (codes "host")
    then properties_of m props
    else properties_of m (Assoc.insert k (own_property v) props)

abbrev pub or_default : Bytes → Bytes → Bytes
or_default [] default = default
or_default (c ∷ cs) default = c ∷ cs

module _ {Json W : Type 0} (env : Env Json W) (srv : Server Json) where
  unfoldable pub input_schema_for : Tool Json → ToolDescriptor Json
  input_schema_for t = record {
    name = t.name;
    description = t.description;
    properties =
        properties_of t.args_properties ((codes "host", host_property srv.default_host) ∷ []);
    required = t.args_required;
  }

  unfoldable pub list_tools : List (Tool Json) → List (ToolDescriptor Json)
  list_tools [] = []
  list_tools (t ∷ ts) = input_schema_for t ∷ list_tools ts

  abbrev pub text_value : Option Json → Bytes
  text_value none = []
  text_value (some v) = elim (env.as_string v) [ none ↦ [] | some s ↦ s ]

  -- The `host` argument, or the default.
  abbrev pub host_of : List (Bytes × Json) → Bytes
  host_of args = or_default (text_value (Assoc.lookup (codes "host") args)) srv.default_host

  unfoldable pub build_daemon_body : List (Bytes × Json) → Option Bytes
  build_daemon_body args = elim (forwarded args) [
    | [] ↦ some (codes "{}")
    | kv ∷ rest ↦ env.marshal (kv ∷ rest)
  ]

  abbrev pub contact : W → ℕ → Bytes → Bytes → Bytes → W × CallResult
  contact = call env.int_text env.parse_error env.post

  abbrev pub recorded : Bytes → Bytes → Compat → Compat
  recorded = record_compat_from_envelope env.atoi env.schema_version

  abbrev pub probed : Bytes → State W → W × CallResult → State W × Option ProbeError
  probed host s (w, replied raw) =
      (record s { world = w; compat = recorded host raw s.compat }, none)
  probed host s (w, refused e) = (record s { world = w }, some (daemon_refused e))
  probed host s (w, failed) = (record s { world = w }, some transport_failed)

  unfoldable pub probe_compat : Bytes → State W → State W × Option ProbeError
  probe_compat host s = probed host s (contact s.world (5 * second) host manifest (codes "{}"))

  abbrev pub verdict : HostCompat → Option ToolError
  verdict compatible = none
  verdict (incompatible reason) = some (schema_incompatible reason)

  abbrev pub after_probe : Bytes → State W × Option ProbeError → State W × Option ToolError
  after_probe host (s, some e) = (s, some (schema_probe e))
  after_probe host (s, none) = (s, verdict (or_unset (Assoc.lookup host s.compat)))

  -- The schema gate of a tool that is not the manifest.
  unfoldable pub gate : Bytes → State W → State W × Option ToolError
  gate host s = elim (Assoc.lookup host s.compat) [
    | some v ↦ (s, verdict v)
    | none ↦ after_probe host (probe_compat host s)
  ]
