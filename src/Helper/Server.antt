-- ===== src/Helper/Server.antt =====
-- The request path of daemon/internal/helper/server/server.go: `dispatch`, `handleConn`, the
-- one-time warning and the accept backoff. Handlers act on a world `W` (the host, its subprocesses)
-- and answer with a value of `V`; `marshal` is encoding/json at results, and deadlines on the
-- connection itself are part of what `Sink` and the incoming bytes leave open.
pub mod Warnings
pub mod Answers
pub mod Connection
pub mod Termination
use host_health_mcp.Base.{
  ℕ, zero, suc, ◌+◌, ◌*◌, String, Bytes, codes, Bool, true, false, not, ◌&&◌, Option, none, some,
  List, [], ◌∷◌, ◌++◌, ltb, ◌==◌, if◌then◌else◌,
}
use host_health_mcp.Base.Eq.{string_eq}
use host_health_mcp.Base.Result.{Result, ok, err}
use host_health_mcp.Capabilities.Effective
use host_health_mcp.Helper.Deadline.{ℤ, millisecond}
use host_health_mcp.Helper.Frame.{
  FrameError, frame_too_large, Sink, max_response_frame, write_frame_with_cap, read_frame,
}
use host_health_mcp.Helper.Ops.{
  Code, bad_op, output_truncated, deadline, internal, is_known_op, required_cap,
}
use host_health_mcp.Helper.Registry
use host_health_mcp.Helper.Registry.{Registry}

pub record Request : Type 0 where
  pub op : String
  pub param : Bytes
  pub deadline_ms : ℤ

-- `dispatch.Error`
pub record DispatchError : Type 0 where
  pub code : Code
  pub message : Bytes
  pub stderr_bytes : ℕ
  pub stderr_sha256 : Bytes
  pub stderr_prefix : Bytes
  pub tool_exit : Option ℤ
  pub argv : List Bytes

-- `proto.Response`: status "ok" with its data, or status "err" with the fields of an error.
pub data Response : Type 0 where
  done : Bytes → Response
  failed : DispatchError → Response

abbrev pub err_resp : Code → Bytes → Response
err_resp code msg = failed (record {
  code = code;
  message = msg;
  stderr_bytes = 0;
  stderr_sha256 = [];
  stderr_prefix = [];
  tool_exit = none;
  argv = [];
})

-- An error of a handler: a `*dispatch.Error`, one that is `context.DeadlineExceeded`, or another
-- with its text.
pub data HandlerError : Type 0 where
  typed : DispatchError → HandlerError
  deadline_exceeded : HandlerError
  other : Bytes → HandlerError

-- A handler gets the time that its context leaves it, and the parameter.
abbrev pub Handler : Type 0 → Type 0 → Type 0
Handler W V = W → ℕ → Bytes → W × Result HandlerError V

abbrev pub fallback_op_deadline : ℕ
fallback_op_deadline = 9500 * millisecond

pub record Config (W V : Type 0) : Type 0 where
  pub registry : Registry (Handler W V)
  pub op_deadline : Option (String → ℤ → ℕ)
  pub caps : Effective.Set

-- `warnedCaps`, and the lines that `warnMissingCapOnce` logged, newest first.
pub record State (W : Type 0) : Type 0 where
  pub warned_caps : String → Bool
  pub logged : List String
  pub world : W

abbrev pub started : {W : Type 0} → W → State W
started w = record { warned_caps = λ _. false; logged = []; world = w }

module _ {W : Type 0} where
  unfoldable pub warn_missing_cap_once : String → State W → State W
  warn_missing_cap_once op s = if s.warned_caps op then s else record s {
    warned_caps = λ o. if string_eq.beq op o then true else s.warned_caps o;
    logged = op ∷ s.logged;
  }

  -- `if want, ok := ops.RequiredCap[req.Op]; ok && !s.caps.Has(want)`
  unfoldable pub check_caps : Effective.Set → String → State W → State W
  check_caps caps op s = elim (required_cap op) [
    | none ↦ s
    | some want ↦ if not (Effective.has want caps) then warn_missing_cap_once op s else s
  ]

unfoldable pub response_of :
    {V : Type 0} → (V → Result Bytes Bytes) → Result HandlerError V → Response
response_of marshal (err (typed e)) = failed e
response_of marshal (err deadline_exceeded) = err_resp deadline (codes "op exceeded its deadline")
response_of marshal (err (other text)) = err_resp internal text
response_of marshal (ok v) = elim (marshal v) [
  | err text ↦ err_resp internal (codes "result marshal: " ++ text)
  | ok body ↦ done body
]

module _ {W V : Type 0} (marshal : V → Result Bytes Bytes) where
  abbrev pub time_for : Config W V → Request → ℕ
  time_for cfg req = elim cfg.op_deadline [
    | none ↦ fallback_op_deadline
    | some f ↦ f req.op req.deadline_ms
  ]

  run_handler : Config W V → Request → Handler W V → State W → State W × Response
  run_handler cfg req h s =
      let (w, out) = h s.world (time_for cfg req) req.param in
      (record s { world = w }, response_of marshal out)

  unfoldable pub dispatch : Config W V → Request → State W → State W × Response
  unfolding run_handler
  dispatch cfg req s =
      if not (is_known_op req.op)
      then (s, err_resp bad_op (codes "unknown op token"))
      else elim (Registry.lookup req.op cfg.registry) [
        | none ↦ (s, err_resp bad_op (codes "op not compiled into this helper"))
        | some h ↦ run_handler cfg req h (check_caps cfg.caps req.op s)
      ]

-- What one connection leaves: the server's state and what was written to the peer.
abbrev pub Served : Type 0 → Type 0
Served W = State W × Sink

abbrev pub truncated_reply : Response
truncated_reply =
    err_resp output_truncated
      (codes "response exceeds the helper/daemon frame cap; narrow the request")

-- The end of the loop body, when the reply was not written.
unfoldable pub give_up : (Response → Option Bytes) → FrameError → Sink → Sink
give_up encode frame_too_large sink =
    (write_frame_with_cap encode truncated_reply max_response_frame sink).0
give_up encode _ sink = sink

module _ {W V : Type 0} (marshal : V → Result Bytes Bytes) (decode : Bytes → Option Request)
    (encode : Response → Option Bytes) where
  -- The loop of `handleConn`; the fuel bounds the number of requests.
  unfoldable pub handle_conn : ℕ → Config W V → Bytes → Served W → Served W
  unfolding give_up
  handle_conn zero cfg r (s, sink) = (s, sink)
  handle_conn (suc fuel) cfg r (s, sink) = elim (read_frame decode r).1 [
    | err _ ↦ (s, sink)
    | ok req ↦
        let (s', resp) = dispatch marshal cfg req s in
        let (sink', written) = write_frame_with_cap encode resp max_response_frame sink in
        elim written [
          | ok _ ↦ handle_conn fuel cfg (read_frame decode r).0 (s', sink')
          | err e ↦ (s', give_up encode e sink')
        ]
  ]

abbrev pub accept_backoff_min : ℕ
accept_backoff_min = 5 * millisecond

abbrev pub accept_backoff_max : ℕ
accept_backoff_max = 1000 * millisecond

unfoldable pub next_backoff : ℕ → ℕ
next_backoff d =
    if d == 0
    then accept_backoff_min
    else if ltb accept_backoff_max (d * 2)
    then accept_backoff_max
    else d * 2
