-- ===== src/Plugin/Serve.antt =====
-- The MCP server of plugin/internal/mcp/mcp.go: the call of a tool, the methods, and the loop over lines.
use host_health_mcp.Base.{
  Bytes, codes, text_eq, Bool, true, false, ◌||◌, Option, none, some, List, [], ◌∷◌, ◌++◌, ◌==◌,
  if◌then◌else◌, length,
}
use host_health_mcp.Base.Eq.{bytes_eq}
use host_health_mcp.Base.Assoc
use host_health_mcp.Base.Result.{Result, ok, err}
use host_health_mcp.Plugin.Host.{HostError, resolve_host}
use host_health_mcp.Plugin.Client.{CallResult, replied, refused, failed}
use host_health_mcp.Plugin.Server.{
  Tool, Request, ToolError, bad_host, host_required, marshal_failed, transport, daemon_error,
  Answer, initialized, pong, listing, content, tool_error, parse_error, bad_params,
  method_not_found, unknown_tool, Response, Env, Server, State, manifest, timeout_of, find_tool,
  list_tools, host_of, build_daemon_body, contact, recorded, gate,
}

module _ {Json W : Type 0} (env : Env Json W) (srv : Server Json) where
  -- What the answer to a tool's request changes and says.
  abbrev pub returned : Tool Json → Bytes → State W → W × CallResult → State W × Answer Json
  returned t host s (w, failed) = (record s { world = w }, tool_error transport)
  returned t host s (w, refused e) = (record s { world = w }, tool_error (daemon_error e))
  returned t host s (w, replied raw) = (
    record s {
      world = w;
      compat =
          if text_eq t.daemon_rpc manifest
          then (if Assoc.has_key host s.compat
              then s.compat
              else recorded env srv host raw s.compat)
          else s.compat;
    },
    content raw,
  )

  unfoldable pub forward : Tool Json → Bytes → List (Bytes × Json) → State W → State W × Answer Json
  forward t host args s = elim (build_daemon_body env srv args) [
    | none ↦ (s, tool_error marshal_failed)
    | some body ↦
        returned t host s (contact env srv s.world (timeout_of t.timeout_s) host t.daemon_rpc body)
  ]

  abbrev pub through :
      Tool Json → Bytes → List (Bytes × Json) → State W × Option ToolError → State W × Answer Json
  through t host args (s, some e) = (s, tool_error e)
  through t host args (s, none) = forward t host args s

  -- A call of a tool that is there, on a host that is resolved.
  unfoldable pub call_on : Tool Json → Bytes → List (Bytes × Json) → State W → State W × Answer Json
  call_on t host args s =
      if text_eq t.daemon_rpc manifest
      then forward t host args s
      else through t host args (gate env srv host s)

  abbrev pub on_resolved :
      Tool Json → List (Bytes × Json) → State W → Result HostError Bytes → State W × Answer Json
  on_resolved t args s (err e) = (s, tool_error (bad_host e))
  on_resolved t args s (ok host) = call_on t host args s

  abbrev pub on_host : Tool Json → List (Bytes × Json) → State W → Bytes → State W × Answer Json
  on_host t args s [] = (s, tool_error host_required)
  on_host t args s (c ∷ cs) = on_resolved t args s (resolve_host env.int_text srv.config (c ∷ cs))

  -- `call`, less the id of its response.
  unfoldable pub call_tool : Bytes → State W → State W × Answer Json
  call_tool params s = elim (env.parse_params params) [
    | none ↦ (s, bad_params)
    | some p ↦ elim (find_tool p.name srv.tools) [
      | none ↦ (s, unknown_tool p.name)
      | some t ↦ on_host t p.arguments s (host_of env srv p.arguments)
    ]
  ]

  -- `dispatch`: no answer is a method that has none.
  unfoldable pub dispatch : Request → State W → State W × Option (Answer Json)
  dispatch req s =
      if text_eq req.method (codes "initialize")
      then (s, some (initialized srv.server_name srv.version))
      else if text_eq req.method (codes "notifications/initialized")
      then (s, none)
      else if text_eq req.method (codes "ping")
      then (s, some pong)
      else if text_eq req.method (codes "tools/list")
      then (s, some (listing (list_tools env srv srv.tools)))
      else if text_eq req.method (codes "tools/call")
      then (let (s', a) = call_tool req.params s in (s', some a))
      else (s, some (method_not_found req.method))

  unfoldable pub is_notification : Request → Bool
  is_notification req = length req.id == 0 || text_eq req.id (codes "null")

  -- `write`, which drops what cannot be marshalled.
  abbrev pub write : Response Json → List (Response Json)
  write r = if env.can_marshal r then r ∷ [] else []

  abbrev pub replies : Request → Option (Answer Json) → List (Response Json)
  replies req none = []
  replies req (some a) =
      if is_notification req then [] else write (record { id = req.id; answer = a })

  -- What the loop does with a line that is not empty.
  unfoldable pub serve_line : Bytes → State W → State W × List (Response Json)
  serve_line line s = elim (env.parse_request line) [
    | none ↦ (s, write (record { id = []; answer = parse_error }))
    | some req ↦ (let (s', a) = dispatch req s in (s', replies req a))
  ]

  -- `Serve`: each line that is read, with whether the context has ended by then.
  unfoldable pub serve : List (Bytes × Bool) → State W → State W × List (Response Json)
  serve [] s = (s, [])
  serve ((line, true) ∷ ls) s = (s, [])
  serve (([], false) ∷ ls) s = serve ls s
  serve ((c ∷ cs, false) ∷ ls) s =
      let (s', out) = serve_line (c ∷ cs) s in let (s'', rest) = serve ls s' in (s'', out ++ rest)
