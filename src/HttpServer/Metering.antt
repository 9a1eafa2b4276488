-- ===== src/HttpServer/Metering.antt =====
-- What a request of daemon/internal/daemon/httpserver/httpserver.go is charged.
use host_health_mcp.Base.{
  ◌≡◌, refl, ◌∙◌, Bytes, codes, Bool, Option, List, if◌then◌else◌, inl, inr, Bool-cases,
  Option-cases, arith,
}
use host_health_mcp.Base.Result.{Result, ok, err}
use host_health_mcp.Cache
use host_health_mcp.RateLimit
use host_health_mcp.HttpServer.Identity.{caller_identity, is_empty, cut_prefix}
use host_health_mcp.HttpServer.Replies.{
  Request, asked_for, CallError, typed, deadline_exceeded, stalled, other_error, Tool, Server,
  State, Clock, Course, led, left, joined, refused, write_error, write_envelope, handle_tool_error,
  conclude,
}
use host_health_mcp.HttpServer.{
  finish, run_tool, do_call, answer, extract_audit_args, or_braces, handle_tool_body, read_body,
  route, meter, handle_request,
}

module _ {W V : Type 0} (marshal : V → Option Bytes) (valid : Bytes → Bool)
    (cache_key : Bytes → Bytes → Bytes) (trim_space : Bytes → Bytes) (srv : Server W V) where
  finish-limiter :
      (clock : Clock) (tool : Tool W V) (name body : Bytes)
      (out : Result CallError (V × List Bytes)) (t : State W)
      → (finish marshal valid cache_key trim_space srv clock tool name body out t).0.limiter
        ≡ t.limiter
  unfolding finish
  finish-limiter clock tool name body (err e) t = refl
  finish-limiter clock tool name body (ok (v, ws)) t = elim (Option-cases (marshal v)) [
    | inl n ↦ rw (n, finish) refl
    | inr (raw, q) ↦ rw (q, finish) refl
  ]

  do_call-limiter :
      (clock : Clock) (course : Course) (tool : Tool W V) (name body : Bytes) (s : State W)
      → (do_call marshal valid cache_key trim_space srv clock course tool name body s).0.limiter
        ≡ s.limiter
  unfolding do_call run_tool
  do_call-limiter clock led tool name body s = finish-limiter clock tool name body _ _
  do_call-limiter clock (left e) tool name body s = finish-limiter clock tool name body _ _
  do_call-limiter clock (joined r) tool name body s = refl
  do_call-limiter clock (refused e) tool name body s = refl

  answer-limiter :
      (clock : Clock) (course : Course) (tool : Tool W V) (caller name body : Bytes) (s : State W)
      → (answer marshal valid cache_key trim_space srv clock course tool caller name body s).limiter
        ≡ s.limiter
  unfolding answer write_envelope
  answer-limiter clock course tool caller name body s =
      elim (Option-cases (Cache.lookup clock.looked_up (cache_key name body) s.entries)) [
        | inr (e, hit) ↦ rw (hit, answer) refl
        | inl missed ↦
            rw (missed, answer)
              (ended (do_call marshal valid cache_key trim_space srv clock course tool name body s)
                ∙ do_call-limiter clock course tool name body s)
      ]
    where
      told : (e : CallError) (t : State W) → (handle_tool_error caller name e t).limiter ≡ t.limiter
      told (typed code msg) t = unfold handle_tool_error write_error in refl
      told deadline_exceeded t = unfold handle_tool_error write_error in refl
      told stalled t = unfold handle_tool_error write_error in refl
      told other_error t = unfold handle_tool_error write_error in refl

      ended :
          (done : State W × Result CallError Cache.Entry)
          → (conclude caller name (extract_audit_args tool body) done).limiter ≡ done.0.limiter
      ended (t, err e) = unfold conclude in told e t
      ended (t, ok e) = unfold conclude write_envelope in refl

  route-limiter :
      (clock : Clock) (course : Course) (r : Request) (caller name : Bytes) (has_prefix : Bool)
      (s : State W)
      → (route marshal valid cache_key trim_space srv clock course r caller name has_prefix
          s).limiter
        ≡ s.limiter
  unfolding route handle_tool_body write_error
  route-limiter clock course r caller name has_prefix s = elim (Option-cases (srv.registry name)) [
    | inl unknown ↦ rw (unknown, route) (ground arith)
    | inr (tool, found) ↦ elim (Option-cases (read_body r)) [
      | inl broken ↦ rw (found, broken, route, handle_tool_body) (ground arith)
      | inr (body, got) ↦
          rw (found, got, route, handle_tool_body)
            (let same = answer-limiter clock course tool caller name (or_braces body) s in
              ground arith)
    ]
  ]

  -- Every request with an identity is metered once, whatever becomes of it; one without is not.
  pub handle_request-limiter :
      (clock : Clock) (course : Course) (r : Request) (s : State W)
      → (let caller = caller_identity trim_space r.peer in
          (handle_request marshal valid cache_key trim_space srv clock course r s).limiter ≡ (
            if is_empty caller
            then s.limiter
            else (RateLimit.allow clock.metered caller (asked_for r) s.limiter).0))
  unfolding handle_request meter write_error
  handle_request-limiter clock course r s =
      let caller = caller_identity trim_space r.peer in
      let name = asked_for r in
      let metered = record s {
        limiter = (RateLimit.allow clock.metered caller name s.limiter).0;
      } in
      let same =
        route-limiter clock course r caller name (cut_prefix r.path (codes "/v1/")).1 metered in
      elim (Bool-cases (is_empty caller)) [
        | inl anonymous ↦ rw anonymous refl
        | inr known ↦
            rw known (elim (Bool-cases (RateLimit.allow clock.metered caller name s.limiter).1.0) [
              | inl granted ↦ rw granted same
              | inr denied ↦ rw denied refl
            ])
      ]
