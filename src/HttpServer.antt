-- ===== src/HttpServer.antt =====
-- The request path of daemon/internal/daemon/httpserver/httpserver.go: `handleRequest`,
-- `handleToolBody`, `handleToolError`, `writeError` and `writeEnvelope`, over the limiter and the
-- cache; the data and the replies are in Replies. A tool acts on a world `W` (the host, the helper)
-- and answers with a value of `V`.
-- Concurrency enters by `Course`, what `Cache.Do` makes of the call: see Cache.Machine for `Do`.
-- Durations and the time stamp of a reply are left out; the host name is part of every reply.
pub mod Identity
pub mod Replies
pub mod Audit
pub mod Guards
pub mod Metering
pub mod Reuse
pub mod Capped
pub mod Limits
mod Examples
use Prim.Native.String.{◌++◌ as str_append}
use text.Mathlib.Text.{◌==◌ as str_eq}
use host_health_mcp.Base.{
  ℕ, ◌+◌, ◌/◌, ◌*◌, String, Bytes, codes, Bool, true, false, not, ◌&&◌, ◌||◌, Option, none, some,
  List, [], ◌∷◌, ltb, leb, length, take, text_eq, if◌then◌else◌,
}
use host_health_mcp.Base.Result.{Result, ok, err}
use host_health_mcp.Cache
use host_health_mcp.RateLimit
use host_health_mcp.HttpServer.Identity.{
  Certificate, caller_identity, is_empty, has_slash, cut_prefix, truncate_tool_name,
}
use host_health_mcp.HttpServer.Replies.{
  Request, asked_for, CallError, typed, deadline_exceeded, stalled, other_error, Tool, Server,
  AuditEntry, Reply, envelope, failure, State, Clock, Course, led, left, joined, refused, second,
  write_error, write_envelope, handle_tool_error, conclude,
}

abbrev pub max_request_body : ℕ
max_request_body = 4096

unfoldable pub extract_audit_args : {W V : Type 0} → Tool W V → Bytes → List (Bytes × Bytes)
extract_audit_args tool body = elim tool.audit_args [ none ↦ [] | some f ↦ f body ]

-- `io.ReadAll(io.LimitReader(r.Body, MaxRequestBody+1))`
unfoldable pub read_body : Request → Option Bytes
read_body r =
    if ltb max_request_body (length r.body)
    then some (take (max_request_body + 1) r.body)
    else if r.broken
    then none
    else some r.body

abbrev pub or_braces : Bytes → Bytes
or_braces [] = codes "{}"
or_braces (c ∷ cs) = c ∷ cs

-- `len(s.enabled) == 0 || s.enabled[name]`; an absent map accepts every tool.
abbrev pub is_enabled : Option (Bytes → Bool) → Bytes → Bool
is_enabled none name = true
is_enabled (some f) name = f name

-- encoding/json (`marshal` of a result, `valid` of a body), `cache.Key` (any `Cache.key`, whatever
-- the hash and the canonical form), and `strings.TrimSpace`.
module _ {W V : Type 0} (marshal : V → Option Bytes) (valid : Bytes → Bool)
    (cache_key : Bytes → Bytes → Bytes) (trim_space : Bytes → Bytes) (srv : Server W V) where
  -- The closure given to `Cache.Do` once the tool has answered.
  unfoldable pub finish :
      Clock
      → Tool W V
      → Bytes
      → Bytes
      → Result CallError (V × List Bytes)
      → State W
      → State W × Result CallError Cache.Entry
  finish clock tool name body (err e) s = (s, err e)
  finish clock tool name body (ok (v, warnings)) s = elim (marshal v) [
    | none ↦ (s, err other_error)
    | some raw ↦
        let e : Cache.Entry = record {
          payload = raw;
          warnings = warnings;
          builtat = clock.observed;
          ttl = srv.cache_ttl name tool.default_ttl;
        } in
        (record s { entries = Cache.store clock.stored (cache_key name body) e s.entries }, ok e)
  ]

  unfoldable pub run_tool :
      Clock → Tool W V → Bytes → Bytes → State W → State W × Result CallError Cache.Entry
  unfolding finish
  run_tool clock tool name body s =
      let (w, out) = tool.handle s.world (srv.timeout name tool.default_timeout) body in
      finish clock tool name body out (record s { world = w })

  -- `s.cache.Do` for each course that it can take.
  unfoldable pub do_call :
      Clock → Course → Tool W V → Bytes → Bytes → State W → State W × Result CallError Cache.Entry
  do_call clock led tool name body s = run_tool clock tool name body s
  do_call clock (left e) tool name body s = ((run_tool clock tool name body s).0, err e)
  do_call clock (joined r) tool name body s = (s, r)
  do_call clock (refused e) tool name body s = (s, err e)

  -- The end of `handleToolBody`, from `s.cache.Lookup` on.
  unfoldable pub answer : Clock → Course → Tool W V → Bytes → Bytes → Bytes → State W → State W
  answer clock course tool caller name body s =
      let args = extract_audit_args tool body in
      elim (Cache.lookup clock.looked_up (cache_key name body) s.entries) [
        | some e ↦ write_envelope caller name args e (Cache.age clock.answered e / second) s
        | none ↦ conclude caller name args (do_call clock course tool name body s)
      ]

  unfoldable pub handle_tool_body :
      Clock → Course → Request → Tool W V → Bytes → Bytes → State W → State W
  handle_tool_body clock course r tool caller name s = elim (read_body r) [
    | none ↦ write_error caller name 400 "bad_argument" "argument failed validation" "read_body" s
    | some body ↦
        if ltb max_request_body (length body)
        then write_error caller name 413 "bad_argument" "request body exceeds cap" "body_too_large"
            s
        else if not (valid (or_braces body))
        then write_error caller name 400 "bad_argument" "request body is not valid JSON"
            "invalid_json" s
        else answer clock course tool caller name (or_braces body) s
  ]

  -- `handleRequest` below the limiter.
  unfoldable pub route : Clock → Course → Request → Bytes → Bytes → Bool → State W → State W
  route clock course r caller name has_prefix s =
      if not has_prefix || is_empty name || has_slash name
      then write_error caller name 404 "unknown_tool" "no such tool" "bad_path" s
      else if not (text_eq r.method (codes "POST"))
      then write_error caller name 405 "bad_argument" "POST required" "method" s
      else elim (srv.registry name) [
        | none ↦ write_error caller name 404 "unknown_tool" "no such tool" "unknown_tool" s
        | some tool ↦
            if not (is_enabled srv.enabled name)
            then write_error caller name 404 "unknown_tool" "no such tool" "tool_disabled" s
            else handle_tool_body clock course r tool caller name s
      ]

  -- `handleRequest` from the limiter on, for an authenticated caller.
  unfoldable pub meter : Clock → Course → Request → Bytes → State W → State W
  meter clock course r caller s =
      let (rest, has_prefix) = cut_prefix r.path (codes "/v1/") in
      let name = truncate_tool_name rest in
      let (limiter, (allowed, reason)) = RateLimit.allow clock.metered caller name s.limiter in
      let metered = record s { limiter = limiter } in
      if not allowed
      then write_error caller name 429 "rate_limited" "request rate limit exceeded"
          (str_append "rate_" reason) metered
      else route clock course r caller name has_prefix metered

  unfoldable pub handle_request : Clock → Course → Request → State W → State W
  handle_request clock course r s =
      let caller = caller_identity trim_space r.peer in
      if is_empty caller
      then write_error caller [] 401 "auth_required" "client certificate required" "no_client_cert"
          s
      else meter clock course r caller s
