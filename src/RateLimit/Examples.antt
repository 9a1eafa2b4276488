-- ===== src/RateLimit/Examples.antt =====
-- Runs of the limiter of daemon/internal/daemon/ratelimit/ratelimit.go at concrete inputs.
use host_health_mcp.Base.{
  ◌+◌, ◌-◌, ◌*◌, ◌≤◌, ◌≡◌, refl, Bytes, codes, true, false, ◌&&◌, Option, none, some, List, [], ◌∷◌,
  arith, text_eq, text_eq_iff, if◌then◌else◌,
}
use host_health_mcp.RateLimit.Buckets.{BucketCfg, token, unlimited, new_bucket, try_take, refund}
use host_health_mcp.RateLimit.Keys.{NoColon}
use host_health_mcp.RateLimit.Level.{held}
use host_health_mcp.RateLimit.Invariant.{IsConfigured, IsValid, IsValid-new}
use host_health_mcp.RateLimit.Decision.{IsValid-allow}
use host_health_mcp.RateLimit.Charge.{cost, tool_charge}
use host_health_mcp.RateLimit.Rate.{Event, call, step, grants, granted, grants_bound}
use host_health_mcp.RateLimit.{
  Limiter, new, put, lazy_sweep, allow, allow_swept, tool_key, cfg_or_zero, is_key,
}

abbrev global_cfg : BucketCfg
global_cfg = record { sustained_per_min = 30; burst = 2; disabled = false }

abbrev logs_cfg : BucketCfg
logs_cfg = record { sustained_per_min = 6; burst = 1; disabled = false }

abbrev logs : Bytes
logs = codes "logs"

abbrev expensive_set : Bytes → Option BucketCfg
expensive_set tool = if text_eq tool logs then some logs_cfg else none

abbrev fresh : Limiter
fresh = new global_cfg expensive_set 0

logs_only : (tool : Bytes) → is_key (expensive_set tool) ≡ true → tool ≡ logs
logs_only tool m = ground (arith, text_eq_iff tool logs)

NoColon-logs : NoColon logs
NoColon-logs = omega arith

fresh-IsConfigured : IsConfigured fresh
unfolding new
fresh-IsConfigured = record {
  names = λ tool m. rw (logs_only tool m) NoColon-logs;
  refills = omega arith;
  tool_refills = λ tool m. ground arith;
}

abbrev curl : Bytes
curl = codes "curl"

abbrev requests : List Event
requests = call 1 curl logs ∷ call 2 curl logs ∷ call 3 curl (codes "dns") ∷ call 4 curl logs ∷ []

-- The second call is refused by the tool's bucket and refunded; the fourth by the global bucket.
requests_granted : grants curl requests fresh ≡ 2
unfolding grants granted step allow allow_swept lazy_sweep new try_take new_bucket refund put
    text_eq tool_key
requests_granted = refl

grants_bound_example : grants curl requests fresh * token ≤ 2 * token + (4 - 0) * 30
grants_bound_example =
    grants_bound curl global_cfg expensive_set 0 requests fresh-IsConfigured refl (omega arith)

IsValid-allow_example : IsValid 5 (allow 5 curl logs fresh).0
IsValid-allow_example =
    IsValid-allow 5 curl logs fresh fresh-IsConfigured (IsValid-new global_cfg expensive_set 0 5)

fresh-IsValid : IsValid 5 fresh
fresh-IsValid = IsValid-new global_cfg expensive_set 0 5

fresh_logs :
    (fresh.expensive logs ≡ true)
    × ((cfg_or_zero (fresh.per_tool logs)).disabled ≡ false)
    × (unlimited (cfg_or_zero (fresh.per_tool logs)) ≡ false)
unfolding new text_eq
fresh_logs = (refl, refl, refl)

tool_charged :
    held
        (cfg_or_zero (fresh.per_tool logs))
        5
        ((allow 5 curl logs fresh).0.tool_bkts (tool_key curl logs))
      + cost (text_eq curl curl && text_eq logs logs && (allow 5 curl logs fresh).1.0)
    ≡ held (cfg_or_zero (fresh.per_tool logs)) 5 (fresh.tool_bkts (tool_key curl logs))
tool_charged =
    tool_charge 5 curl logs fresh fresh-IsConfigured fresh-IsValid curl logs fresh_logs.0
      fresh_logs.1 fresh_logs.2
