-- ===== src/RateLimit/Buckets.antt =====
-- `bucket` of daemon/internal/daemon/ratelimit/ratelimit.go.
-- A time is a clock reading in nanoseconds. Go keeps `tokens` in a float64 that grows by
-- dt * SustainedPerMin / 60 a second; here a token is 60 * 10^9 units, so that the same growth is
-- SustainedPerMin units a nanosecond and every sum is exact (the rounding of float64 is left out).
use host_health_mcp.Base.{ℕ, ◌+◌, ◌-◌, ◌*◌, Bool, true, false, ◌&&◌, ltb, leb, ◌==◌, if◌then◌else◌}

pub record BucketCfg : Type 0 where
  pub sustained_per_min : ℕ
  pub burst : ℕ
  pub disabled : Bool

pub record Bucket : Type 0 where
  pub cfg : BucketCfg
  pub tokens : ℕ
  pub last_fill : ℕ
  pub last_touched : ℕ

-- One token.
abbrev pub token : ℕ
token = 60_000_000_000

abbrev pub capacity : BucketCfg → ℕ
capacity cfg = cfg.burst * token

-- `if b.tokens > float64(b.cfg.Burst) { b.tokens = float64(b.cfg.Burst) }`
abbrev pub clip : BucketCfg → ℕ → ℕ
clip cfg t = if ltb (capacity cfg) t then capacity cfg else t

abbrev pub unlimited : BucketCfg → Bool
unlimited cfg = cfg.sustained_per_min == 0 && cfg.burst == 0

unfoldable pub new_bucket : BucketCfg → ℕ → Bucket
new_bucket cfg now = record {
  cfg = cfg;
  tokens = capacity cfg;
  last_fill = now;
  last_touched = now;
}

unfoldable pub try_take : ℕ → Bucket → Bucket × Bool
try_take now b =
    if unlimited b.cfg
    then (b, true)
    else let filled = clip b.cfg (b.tokens + (now - b.last_fill) * b.cfg.sustained_per_min) in
      let b' = record b { tokens = filled; last_fill = now; last_touched = now } in
      if leb token filled then (record b' { tokens = filled - token }, true) else (b', false)

unfoldable pub refund : Bucket → ℕ → Bucket
refund b now = record b { tokens = clip b.cfg (b.tokens + token); last_touched = now }
