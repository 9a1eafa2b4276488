-- ===== src/Helper/Examples.antt =====
-- The helper of daemon/internal/helper at concrete inputs: a world that counts calls, results and
-- requests that are bytes, one handler.
use host_health_mcp.Base.{
  ℕ, zero, suc, ◌+◌, ◌-◌, ◌*◌, ◌≤◌, ◌≡◌, refl, String, Bytes, codes, true, false, Option, none,
  some, List, [], ◌∷◌, ◌++◌, ◌⊎◌, arith, length, min, max,
}
use host_health_mcp.Base.Result.{Result, ok}
use host_health_mcp.Capabilities.Effective
use host_health_mcp.Helper.Deadline.{
  pos, negsuc, Overrides, positive, millisecond, op_deadline, min_op_deadline, max_op_deadline,
  op_deadline_bounds, ms_to_duration,
}
use host_health_mcp.Helper.Frame.{Sink, le32, write_frame_with_cap, read_frame_with_cap}
use host_health_mcp.Helper.Frame.RoundTrip.{frame, read-write_frame}
use host_health_mcp.Helper.Ops.{bad_op, is_known_op, required_cap}
use host_health_mcp.Helper.Registry
use host_health_mcp.Helper.Registry.{
  Registry, register, register_all, lookup, ops, named, registered, register_all-lookup,
}
use host_health_mcp.Helper.Ops.{mem_op}
use host_health_mcp.Helper.Server.{
  Request, Response, done, failed, err_resp, Config, Handler, started, dispatch, response_of,
  handle_conn, truncated_reply, check_caps, warn_missing_cap_once,
}
use host_health_mcp.Helper.Server.Answers.{dispatch_runs}
use host_health_mcp.Helper.Server.Warnings.{count, dispatch_all, warned_once}
use host_health_mcp.Helper.Server.Termination.{handle_conn_terminates}
use host_health_mcp.Helper.Server.Connection.{
  Sent, stream, requests, replies, frames, handle_conn-replies, handle_conn_oversize,
}

-- One handler, for zpool_status: it counts the call and answers with its parameter.
abbrev zpool : Handler ℕ Bytes
zpool w time param = (suc w, ok param)

abbrev table : List (String × Handler ℕ Bytes)
table = ("zpool_status", zpool) ∷ []

abbrev reg : Registry (Handler ℕ Bytes)
reg op = named op table

table_registers : register_all table Registry.new ≡ ok reg
unfolding register_all register is_known_op
table_registers = refl

found_once :
    (lookup "zpool_status" reg ≡ named "zpool_status" table)
    × (mem_op "zpool_status" (ops reg) ≡ registered (named "zpool_status" table))
found_once = register_all-lookup table table_registers "zpool_status"

abbrev overrides : Overrides
overrides op = some (pos 99_999)

-- A typo in helper.yml is cut at the greatest deadline, a budget of 3 s is honoured.
deadlines :
    (op_deadline overrides "zpool_status" (pos 0) ≡ max_op_deadline)
    × (op_deadline overrides "zpool_status" (pos 3000) ≡ 3000 * millisecond)
    × (op_deadline overrides "zpool_status" (negsuc 4) ≡ max_op_deadline)
unfolding op_deadline ms_to_duration
deadlines = (refl, refl, refl)

deadline_in_bounds :
    (min_op_deadline ≤ op_deadline overrides "zpool_status" (pos 1))
    × (op_deadline overrides "zpool_status" (pos 1) ≤ max_op_deadline)
    × (op_deadline overrides "zpool_status" (pos 1) ≤ op_deadline overrides "zpool_status" (pos 0))
    × ((ms : ℕ)
        → positive (pos 1) ≡ some ms
        → op_deadline overrides "zpool_status" (pos 1)
          ≡ max min_op_deadline
              (min (ms * millisecond) (op_deadline overrides "zpool_status" (pos 0))))
deadline_in_bounds = op_deadline_bounds overrides "zpool_status" (pos 1)

-- No capability at all.
abbrev cfg : Config ℕ Bytes
cfg = record {
  registry = reg;
  op_deadline = some (op_deadline overrides);
  caps = record { mask = 0; read = true };
}

abbrev marshal : Bytes → Result Bytes Bytes
marshal b = ok b

-- Requests on the wire: their parameter.
abbrev decode : Bytes → Option Request
decode b = some (record { op = "zpool_status"; param = b; deadline_ms = pos 0 })

abbrev text : Response → Bytes
text (done b) = b
text (failed e) = e.message

abbrev encode : Response → Option Bytes
encode r = some (text r)

abbrev ask : Bytes → Request
ask b = record { op = "zpool_status"; param = b; deadline_ms = pos 0 }

dispatch_runs_example :
    ((is_known_op "zpool_status" ≡ false) ⊎ (Registry.lookup "zpool_status" cfg.registry ≡ none)
      → ((dispatch marshal cfg (ask (codes "tank")) (started 0)).0 ≡ started 0)
        × ((msg : Bytes) × ((dispatch marshal cfg (ask (codes "tank")) (started 0)).1
              ≡ err_resp bad_op msg)))
    × ((h : Handler ℕ Bytes)
        → is_known_op "zpool_status" ≡ true
        → Registry.lookup "zpool_status" cfg.registry ≡ some h
        → (time : ℕ) × (min_op_deadline ≤ time)
          × (time ≤ max_op_deadline)
          × ((dispatch marshal cfg (ask (codes "tank")) (started 0)).0.world
              ≡ (h 0 time (codes "tank")).0)
          × ((dispatch marshal cfg (ask (codes "tank")) (started 0)).1
              ≡ response_of marshal (h 0 time (codes "tank")).1))
dispatch_runs_example = dispatch_runs marshal cfg (ask (codes "tank")) (started 0) overrides refl

abbrev twice : List Request
twice = ask (codes "a") ∷ ask (codes "b") ∷ []

warned_one_time :
    (count "zpool_status" (dispatch_all marshal cfg twice (started 0)).logged ≤ 1)
    × (1 ≤ count "zpool_status" (dispatch_all marshal cfg twice (started 0)).logged
        → (want : String) × (required_cap "zpool_status" ≡ some want)
          × (Effective.has want cfg.caps ≡ false))
warned_one_time = warned_once marshal cfg twice 0 "zpool_status"

-- Two calls, one line.
twice_logged : (dispatch_all marshal cfg twice (started 0)).logged ≡ "zpool_status" ∷ []
unfolding dispatch_all dispatch check_caps warn_missing_cap_once is_known_op required_cap lookup
    Effective.has Effective.bit_of
twice_logged = refl

abbrev wide : Sink
wide = record { out = []; room = 1000 }

abbrev sent : List (Sent decode)
sent =
    record { request = ask (codes "a"); body = codes "a"; decodes = refl; fits = omega arith } ∷ []

abbrev replied : List Response
replied = done (codes "a") ∷ []

sent-replies : replies marshal cfg (requests sent) (started 0) ≡ replied
unfolding replies dispatch response_of is_known_op lookup
sent-replies = refl

handle_conn-replies_example :
    handle_conn marshal decode encode (suc (1 + 0)) cfg (stream sent) (started 0, wide) ≡ (
      dispatch_all marshal cfg (requests sent) (started 0),
      record {
        out = [] ++ frames text (replies marshal cfg (requests sent) (started 0));
        room = 1000 - length (frames text (replies marshal cfg (requests sent) (started 0)));
      },
    )
unfolding replies dispatch response_of is_known_op lookup frames frame le32
handle_conn-replies_example =
    handle_conn-replies marshal decode encode text cfg sent 0 (started 0) wide
      ((refl, omega arith), tt) (omega arith)

read-write_frame_example :
    (bytes : Bytes) × (write_frame_with_cap encode (done (codes "a")) 16 wide
      ≡ (record { out = [] ++ bytes; room = 1000 - length bytes }, ok tt))
    × (read_frame_with_cap (λ b. some (done b)) 16 (bytes ++ codes "xy")
        ≡ (codes "xy", ok (done (codes "a"))))
read-write_frame_example =
    read-write_frame encode (λ b. some (done b)) (done (codes "a")) (codes "a") 16 wide (codes "xy")
      refl refl (omega arith) (omega arith) (omega arith)

zeros : ℕ → Bytes
zeros zero = []
zeros (suc n) = 0 ∷ zeros n

length-zeros : (n : ℕ) → length (zeros n) ≡ n
unfolding zeros
length-zeros zero = refl
length-zeros (suc n) = omega (arith, length-zeros n)

-- Just past the response cap.
abbrev big : Bytes
big = zeros 4_194_305

abbrev asked : Sent decode
asked = record { request = ask (codes "a"); body = codes "a"; decodes = refl; fits = omega arith }

abbrev big_handler : Handler ℕ Bytes
big_handler w time param = (w, ok big)

abbrev big_cfg : Config ℕ Bytes
big_cfg = record cfg { registry = λ op. named op (("zpool_status", big_handler) ∷ []) }

handle_conn_oversize_example :
    handle_conn marshal decode encode (suc 7) big_cfg (frame (codes "a") ++ []) (started 0, wide)
    ≡ (
      (dispatch marshal big_cfg (ask (codes "a")) (started 0)).0,
      record {
        out = [] ++ frame (text truncated_reply);
        room = 1000 - length (frame (text truncated_reply));
      },
    )
unfolding dispatch response_of is_known_op lookup frame le32
handle_conn_oversize_example =
    handle_conn_oversize marshal decode encode text big_cfg 7 asked [] big (started 0) wide refl
      (omega (arith, length-zeros 4_194_305)) refl (omega arith) (omega arith)

-- A frame and six bytes: three rounds of the loop are enough.
handle_conn_terminates_example :
    handle_conn marshal decode encode 3 cfg (frame (codes "a") ++ codes "abcdef") (started 0, wide)
    ≡ handle_conn marshal decode encode 100 cfg
        (frame (codes "a") ++ codes "abcdef")
        (started 0, wide)
unfolding frame le32
handle_conn_terminates_example =
    handle_conn_terminates marshal decode encode cfg 3 100 (frame (codes "a") ++ codes "abcdef")
      (started 0, wide) (omega arith) (omega arith)
