-- ===== src/Helper/Invoke/Examples.antt =====
-- daemon/internal/daemon/helperinvoke/helperinvoke.go at concrete inputs.
use host_health_mcp.Base.{
  ℕ, zero, [], ◌∷◌, ◌++◌, take, length, suc, ◌+◌, ◌-◌, ◌*◌, ◌≤◌, ◌<◌, ◌≡◌, refl, Bytes, codes, true,
  Option, none, some, max, arith,
}
use host_health_mcp.Base.Result.{Result, ok}
use host_health_mcp.Helper.Deadline.{pos, millisecond, min_op_deadline, op_deadline}
use host_health_mcp.Helper.Ops.{is_known_op}
use host_health_mcp.Helper.Frame.RoundTrip.{frame}
use host_health_mcp.Helper.Frame.{le32}
use host_health_mcp.Helper.Registry.{lookup}
use host_health_mcp.Helper.Server.{
  Request, Response, done, failed, Handler, Config, started, dispatch, response_of,
}
use host_health_mcp.Helper.Invoke.{
  helper_deadline_budget, socket_deadline, deadline_ms_until, request_of, receive, call,
}
use host_health_mcp.Helper.Invoke.Budget.{budget_lem}
use host_health_mcp.Helper.Invoke.OpError.{
  max_message_len, ellipsis, bound_message, IsCut, bound_message_lem,
}
use host_health_mcp.Helper.Invoke.Served.{reaching, call_served}

abbrev ten_seconds : ℕ
ten_seconds = 10_000 * millisecond

budget_lem_example :
    (let dl = socket_deadline millisecond ten_seconds in
      let ms = deadline_ms_until (2 * millisecond) dl in
      (1 ≤ ms)
      × (2 * millisecond < dl
          → (dl - 2 * millisecond ≤ ms * millisecond)
            × (ms * millisecond < dl - 2 * millisecond + millisecond))
      × (dl ≤ ten_seconds)
      × (millisecond + helper_deadline_budget < ten_seconds
          → dl + helper_deadline_budget ≡ ten_seconds)
      × (op_deadline (λ op. none) "zpool_status" (pos ms) ≤ max min_op_deadline (ms * millisecond)))
budget_lem_example =
    budget_lem (λ op. none) "zpool_status" millisecond (2 * millisecond) ten_seconds

-- What a call with ten seconds left sends.
sent_ms : deadline_ms_until (2 * millisecond) (socket_deadline millisecond ten_seconds) ≡ 9498
unfolding socket_deadline deadline_ms_until
sent_ms = refl

abbrev echo : Handler ℕ Bytes
echo w time param = (suc w, ok param)

abbrev cfg : Config ℕ Bytes
cfg = record {
  registry = λ op. some echo;
  op_deadline = none;
  caps = record { mask = 0; read = true };
}

abbrev marshal : Bytes → Result Bytes Bytes
marshal b = ok b

abbrev encode_request : Request → Option Bytes
encode_request r = some r.param

abbrev decode_request : Bytes → Option Request
decode_request b = some (record { op = "zpool_status"; param = b; deadline_ms = pos 0 })

abbrev encode : Response → Option Bytes
encode (done b) = some b
encode (failed e) = none

abbrev decode : Bytes → Option Response
decode b = some (done b)

call_served_example :
    (let a =
        reaching marshal cfg encode_request decode_request encode decode
          (started 0)
          100
          100
          none
          0
          0 in
      call encode_request decode true a "zpool_status" (codes "tank")
      ≡ receive
          (ok (dispatch marshal cfg (request_of a "zpool_status" (codes "tank")) (started 0)).1))
unfolding dispatch response_of is_known_op lookup request_of frame le32
call_served_example =
    call_served marshal cfg encode_request decode_request encode decode true "zpool_status"
      (codes "tank") (started 0) 100 100 none 0 0 (codes "tank") (codes "tank") refl refl refl
      (omega arith) (omega arith) refl refl (omega arith) (omega arith)

many : ℕ → Bytes
many zero = []
many (suc n) = b'a' ∷ many n

-- 196 letters, a character of two bytes over the place of the cut, and four letters more.
abbrev long_message : Bytes
long_message = many 196 ++ (195 ∷ 169 ∷ many 4)

bounded_text :
    (length long_message ≤ max_message_len → bound_message long_message ≡ long_message)
    × (max_message_len < length long_message
        → (k : ℕ) × IsCut long_message 197 k
          × (bound_message long_message ≡ take k long_message ++ ellipsis))
    × (length (bound_message long_message) ≤ max_message_len)
bounded_text = bound_message_lem long_message
