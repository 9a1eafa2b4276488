-- ===== src/Helper/Invoke.antt =====
-- `Client.Call` of daemon/internal/daemon/helperinvoke/helperinvoke.go: one request to the helper.
-- What the surroundings do to a call is an `Attempt`: whether it gets a place of the semaphore
-- before its context ends, the connection it dials, its deadline, and the two clock readings. The
-- goroutine that watches the context shows as a connection that fails.
pub mod OpError
pub mod Budget
pub mod Served
mod Examples
use host_health_mcp.Base.{
  ℕ, ◌+◌, ◌-◌, ◌*◌, ◌/◌, String, Bytes, Bool, true, false, not, ◌&&◌, Option, none, some, ltb,
  if◌then◌else◌,
}
use host_health_mcp.Base.Result.{Result, ok, err}
use host_health_mcp.Helper.Deadline.{ℤ, pos, millisecond}
use host_health_mcp.Helper.Frame.{
  FrameError, Sink, max_response_frame, write_frame, read_frame_with_cap,
}
use host_health_mcp.Helper.Ops.{Code, tool_failed, is_known_op}
use host_health_mcp.Helper.Server.{Request, Response, done, failed, DispatchError}

abbrev pub helper_deadline_budget : ℕ
helper_deadline_budget = 500 * millisecond

-- The deadline put on the socket, `now` being read after the dial.
unfoldable pub socket_deadline : ℕ → ℕ → ℕ
socket_deadline now deadline =
    let helper_dl = deadline - helper_deadline_budget in
    if not (ltb now helper_dl) then deadline else helper_dl

-- The milliseconds that are left, rounded up, and 1 where nothing is left.
unfoldable pub deadline_ms_until : ℕ → ℕ → ℕ
deadline_ms_until now helper_dl =
    if ltb now helper_dl then (helper_dl - now + millisecond - 1) / millisecond else 1

pub data CallError : Type 0 where
  unknown_op context_ended dial_failed bad_json : CallError
  write_failed read_failed : FrameError → CallError
  helper_error : DispatchError → CallError

-- A connection: what it takes, and what the peer answers to the bytes that it gets.
pub record Conn : Type 0 where
  pub sink : Sink
  pub peer : Bytes → Bytes

pub record Attempt : Type 0 where
  pub slot : Bool
  pub conn : Option Conn
  pub deadline : Option ℕ
  pub dialled_at : ℕ
  pub framed_at : ℕ

unfoldable pub request_of : Attempt → String → Bytes → Request
request_of a op param = record {
  op = op;
  param = param;
  deadline_ms = elim a.deadline [
    | none ↦ pos 0
    | some d ↦ pos (deadline_ms_until a.framed_at (socket_deadline a.dialled_at d))
  ];
}

unfoldable pub receive : Result FrameError Response → Result CallError Bytes
receive (err e) = err (read_failed e)
receive (ok (failed e)) = err (helper_error e)
receive (ok (done body)) = ok body

-- `CodeOf`
unfoldable pub code_of : CallError → Code
code_of (helper_error e) = e.code
code_of _ = tool_failed

module _ (encode : Request → Option Bytes) (decode : Bytes → Option Response) where
  -- From the write of the request on.
  unfoldable pub exchange : Request → Conn → Result CallError Bytes
  exchange req conn =
      let (sink, sent) = write_frame encode req conn.sink in
      elim sent [
        | err e ↦ err (write_failed e)
        | ok _ ↦ receive (read_frame_with_cap decode max_response_frame (conn.peer sink.out)).1
      ]

  -- `limited` is `c.sem != nil`.
  unfoldable pub call : Bool → Attempt → String → Bytes → Result CallError Bytes
  call limited a op param =
      if not (is_known_op op)
      then err unknown_op
      else if limited && not a.slot
      then err context_ended
      else elim a.conn [
        | none ↦ err dial_failed
        | some conn ↦ exchange (request_of a op param) conn
      ]

  unfoldable pub call_json :
      {J : Type 0} → (Bytes → Option J) → Bool → Attempt → String → Bytes → Result CallError J
  call_json unmarshal limited a op param = elim (call limited a op param) [
    | err e ↦ err e
    | ok body ↦ elim (unmarshal body) [ none ↦ err bad_json | some v ↦ ok v ]
  ]
