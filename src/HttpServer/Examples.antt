-- ===== src/HttpServer/Examples.antt =====
-- daemon/internal/daemon/httpserver at concrete inputs: one tool, which counts its calls.
use host_health_mcp.Base.{
  ℕ, suc, ◌<◌, ◌*◌, ◌^◌, ◌≤◌, min, ◌≡◌, ◌⊎◌, refl, Bytes, codes, text_eq, Bool, true, false, Option,
  none, some, [], ◌∷◌, if◌then◌else◌, arith,
}
use host_health_mcp.Base.Result.{ok}
use host_health_mcp.Cache
use host_health_mcp.Base.Assoc
use host_health_mcp.RateLimit
use host_health_mcp.HttpServer.Identity.{Certificate, client_auth, caller_identity, is_empty}
use host_health_mcp.HttpServer.Replies.{
  Request, asked_for, Tool, Server, State, Clock, led, write_envelope, second,
}
use host_health_mcp.HttpServer.{handle_request, answer, extract_audit_args}
use host_health_mcp.HttpServer.Guards.{Admitted, handle_request-Admitted}
use host_health_mcp.HttpServer.Metering.{handle_request-limiter}
use host_health_mcp.HttpServer.Reuse.{answer_again, entry_of}
use host_health_mcp.HttpServer.Capped.{
  IsValid, accepts, closes, shuts, run, new_capped_listener, run-new-IsValid,
}
use host_health_mcp.HttpServer.Limits.{
  Overrides, override, cache_ttl, timeout, max_timeout, timeout_lem,
}
use host_health_mcp.Helper.Deadline.{pos}

abbrev leaf : Certificate
leaf = record {
  is_ca = false;
  ext_key_usage = client_auth ∷ [];
  common_name = codes "agent";
  dns_names = [];
}

abbrev same : Bytes → Bytes
same s = s

abbrev shown : Bytes → Option Bytes
shown v = some v

abbrev any_json : Bytes → Bool
any_json s = true

abbrev joined_key : Bytes → Bytes → Bytes
joined_key tool body = body

abbrev counting : Tool ℕ Bytes
counting = record {
  default_ttl = 30 * second;
  default_timeout = 5 * second;
  handle = λ n t body. (suc n, ok (codes "{}", []));
  audit_args = none;
}

abbrev kernel : Bytes
kernel = codes "kernel"

abbrev server : Server ℕ Bytes
server = record {
  registry = λ name. if text_eq name kernel then some counting else none;
  enabled = none;
  cache_ttl = λ name d. d;
  timeout = λ name d. d;
}

abbrev fresh : State ℕ
fresh = record {
  limiter =
      RateLimit.new (record { sustained_per_min = 30; burst = 5; disabled = false }) (λ t. none) 0;
  entries = [];
  audit = [];
  replies = [];
  world = 0;
}

abbrev at_second : ℕ → Clock
at_second n = record {
  metered = n * second;
  looked_up = n * second;
  observed = n * second;
  stored = n * second;
  answered = n * second;
}

abbrev ask : Request
ask = record {
  peer = some leaf;
  path = codes "/v1/kernel";
  method = codes "POST";
  body = [];
  broken = false;
}

handle_request-Admitted_example :
    (((handle_request shown any_json joined_key same server (at_second 1) led ask fresh).world ≡ 0)
      × ((handle_request shown any_json joined_key same server (at_second 1) led ask fresh).entries
          ≡ []))
    ⊎ ((tool : Tool ℕ Bytes) × (body : Bytes) × Admitted shown any_json joined_key same server
          (at_second 1)
          ask
          fresh
          tool
          body)
handle_request-Admitted_example =
    handle_request-Admitted shown any_json joined_key same server (at_second 1) led ask fresh

handle_request-limiter_example :
    (handle_request shown any_json joined_key same server (at_second 1) led ask fresh).limiter ≡ (
      if is_empty (caller_identity same (some leaf))
      then fresh.limiter
      else (RateLimit.allow
          (1 * second)
          (caller_identity same (some leaf))
          (asked_for ask)
          fresh.limiter).0)
handle_request-limiter_example =
    handle_request-limiter shown any_json joined_key same server (at_second 1) led ask fresh

run-new-IsValid_example :
    IsValid
      (run (accepts ∷ accepts ∷ closes 0 ∷ closes 0 ∷ accepts ∷ shuts ∷ []) (new_capped_listener 1))
run-new-IsValid_example =
    run-new-IsValid 1 (accepts ∷ accepts ∷ closes 0 ∷ closes 0 ∷ accepts ∷ shuts ∷ [])

abbrev a_minute : Overrides
a_minute tool = some (pos 60)

kernel_timeout :
    (timeout a_minute kernel 5 ≤ max_timeout)
    × ((v : ℕ)
        → override (some (pos 60)) ≡ some v
        → (timeout a_minute kernel 5 ≡ min (v * second) max_timeout)
          × (cache_ttl a_minute kernel 5 ≡ v * second))
    × (override (some (pos 60)) ≡ none
        → (timeout a_minute kernel 5 ≡ min 5 max_timeout) × (cache_ttl a_minute kernel 5 ≡ 5))
kernel_timeout = timeout_lem a_minute kernel 5 (omega arith) (λ v e. sixty v e)
  where
    sixty : (v : ℕ) → some 60 ≡ some v → v * second < 2 ^ 63
    sixty v e = ground arith

answer_again_example :
    (let e =
        entry_of shown any_json joined_key same server
          (at_second 1)
          counting
          kernel
          (codes "{}")
          [] in
      let kept = record fresh { world = 1; entries = Cache.store (1 * second) (codes "{}") e [] } in
      let t =
        answer shown any_json joined_key same server
          (at_second 1)
          led
          counting
          (codes "a")
          kernel
          (codes "{}")
          fresh in
      (t ≡ write_envelope (codes "a") kernel [] e 0 kept)
      × (answer shown any_json joined_key same server
            (at_second 9)
            led
            counting
            (codes "b")
            kernel
            (codes "{}")
            t
          ≡ write_envelope (codes "b") kernel [] e 8 t))
unfolding Cache.lookup Cache.Entries.accepts extract_audit_args Assoc.lookup Assoc.has_key
answer_again_example =
    answer_again shown any_json joined_key same server (at_second 1) (at_second 9) led counting
      (codes "a") (codes "b") kernel (codes "{}") (codes "{}") fresh 1 (codes "{}") [] refl refl
      refl refl refl
