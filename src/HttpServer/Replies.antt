-- ===== src/HttpServer/Replies.antt =====
-- The data of daemon/internal/daemon/httpserver/httpserver.go: what a request brings, what requests
-- change, and the replies, each with its audit line.
use text.Mathlib.Text.{◌==◌ as str_eq}
use host_health_mcp.Base.{
  ℕ, String, Bytes, codes, Bool, Option, List, [], ◌∷◌, length, if◌then◌else◌,
}
use host_health_mcp.Base.Result.{Result, ok, err}
use host_health_mcp.Cache
use host_health_mcp.RateLimit
use host_health_mcp.HttpServer.Identity.{Certificate, cut_prefix, truncate_tool_name}

-- A request: the leaf certificate of its connection, and the bytes of its body until the end or,
-- where `broken`, until reading fails.
pub record Request : Type 0 where
  pub peer : Option Certificate
  pub path : Bytes
  pub method : Bytes
  pub body : Bytes
  pub broken : Bool

-- What `handleToolError` tells apart: a `*tools.Error`, an error that is
-- `context.DeadlineExceeded`, one that is `cache.ErrStalled`, and the rest.
pub data CallError : Type 0 where
  typed : String → String → CallError
  deadline_exceeded : CallError
  stalled : CallError
  other_error : CallError

-- `tools.Tool`, with the optional `AuditArgs`.
pub record Tool (W V : Type 0) : Type 0 where
  pub default_ttl : ℕ
  pub default_timeout : ℕ
  pub handle : W → ℕ → Bytes → W × Result CallError (V × List Bytes)
  pub audit_args : Option (Bytes → List (Bytes × Bytes))

pub record Server (W V : Type 0) : Type 0 where
  pub registry : Bytes → Option (Tool W V)
  pub enabled : Option (Bytes → Bool)
  pub cache_ttl : Bytes → ℕ → ℕ
  pub timeout : Bytes → ℕ → ℕ

-- `audit.Entry`
pub record AuditEntry : Type 0 where
  pub caller : Bytes
  pub tool : Bytes
  pub args : List (Bytes × Bytes)
  pub response_size : ℕ
  pub outcome : String
  pub reject_reason : String

pub data Reply : Type 0 where
  envelope : Bytes → ℕ → List Bytes → Reply
  failure : ℕ → String → String → Reply

-- What the requests change; the two logs have the newest first.
pub record State (W : Type 0) : Type 0 where
  pub limiter : RateLimit.Limiter
  pub entries : Cache.Entries
  pub audit : List AuditEntry
  pub replies : List Reply
  pub world : W

-- The readings of the clock in the course of a request.
pub record Clock : Type 0 where
  pub metered : ℕ
  pub looked_up : ℕ
  pub observed : ℕ
  pub stored : ℕ
  pub answered : ℕ

-- The name that a request is metered and recorded under: what follows "/v1/", or else the path.
abbrev pub asked_for : Request → Bytes
asked_for r = truncate_tool_name (cut_prefix r.path (codes "/v1/")).0

-- What `Cache.Do` makes of a call: it runs the work and waits for it; it runs the work, whose
-- waiter leaves with an error; it gets the result of a call under way; it gets an error and no
-- work is begun for it.
pub data Course : Type 0 where
  led : Course
  left : CallError → Course
  joined : Result CallError Cache.Entry → Course
  refused : CallError → Course

abbrev pub second : ℕ
second = 1_000_000_000

module _ {W : Type 0} where
  unfoldable pub write_error : Bytes → Bytes → ℕ → String → String → String → State W → State W
  write_error caller tool status code msg reason s = record s {
    replies = failure status code msg ∷ s.replies;
    audit =
        record {
          caller = caller;
          tool = tool;
          args = [];
          response_size = 0;
          outcome = code;
          reject_reason = reason;
        }
        ∷ s.audit;
  }

  -- `writeEnvelope` and the audit line that follows both of its calls.
  unfoldable pub write_envelope :
      Bytes → Bytes → List (Bytes × Bytes) → Cache.Entry → ℕ → State W → State W
  write_envelope caller tool args e age_s s = record s {
    replies = envelope e.payload age_s e.warnings ∷ s.replies;
    audit =
        record {
          caller = caller;
          tool = tool;
          args = args;
          response_size = length e.payload;
          outcome = "ok";
          reject_reason = "";
        }
        ∷ s.audit;
  }

  unfoldable pub handle_tool_error : Bytes → Bytes → CallError → State W → State W
  handle_tool_error caller tool (typed code msg) s =
      write_error caller tool (if str_eq code "bad_argument" then 400 else 502) code msg code s
  handle_tool_error caller tool deadline_exceeded s =
      write_error caller tool 504 "tool_timeout" "tool exceeded its timeout" "deadline" s
  handle_tool_error caller tool stalled s =
      write_error caller tool 503 "tool_failed" "tool has invocations that have not returned"
        "stalled" s
  handle_tool_error caller tool other_error s =
      write_error caller tool 502 "tool_failed" "tool failed to assemble its response" "tool_error"
        s

  -- The end of `handleToolBody`: the answer of `s.cache.Do`.
  unfoldable pub conclude :
      Bytes → Bytes → List (Bytes × Bytes) → State W × Result CallError Cache.Entry → State W
  conclude caller name args (s, err e) = handle_tool_error caller name e s
  conclude caller name args (s, ok e) = write_envelope caller name args e 0 s
