-- ===== src/RateLimit.antt =====
-- daemon/internal/daemon/ratelimit/ratelimit.go: the two-level token-bucket limiter.
-- The buckets are in Buckets; maps from string keys are functions. `Allow` and the sweeper run under
-- `l.mu`, so each is one step from a state to a state, at the clock reading taken under the lock.
pub mod Buckets
pub mod Keys
pub mod Level
pub mod Invariant
pub mod Decision
pub mod Charge
pub mod Rate
mod Examples
use host_health_mcp.Base.{
  ℕ, ◌-◌, String, Bytes, codes, Bool, true, false, not, Option, none, some, List, [], ◌∷◌, ◌++◌,
  ltb, text_eq, if◌then◌else◌,
}
use host_health_mcp.RateLimit.Buckets.{BucketCfg, Bucket, new_bucket, try_take, refund}

pub record Limiter : Type 0 where
  pub global : BucketCfg
  pub per_tool : Bytes → Option BucketCfg
  pub expensive : Bytes → Bool
  pub global_bkts : Bytes → Option Bucket
  pub tool_bkts : Bytes → Option Bucket
  pub last_swept : ℕ
  pub sweep_every : ℕ

-- Minutes in nanoseconds.
abbrev pub minute : ℕ
minute = 60_000_000_000

abbrev pub idle : ℕ
idle = 600_000_000_000

-- `m[k] = v`
unfoldable pub put : Bytes → Bucket → (Bytes → Option Bucket) → Bytes → Option Bucket
put k b m j = if text_eq k j then some b else m j

abbrev pub is_key {ℓ} : {A : Type ℓ} → Option A → Bool
is_key none = false
is_key (some _) = true

unfoldable pub new : BucketCfg → (Bytes → Option BucketCfg) → ℕ → Limiter
new global per_tool now = record {
  global = global;
  per_tool = per_tool;
  expensive = λ tool. is_key (per_tool tool);
  global_bkts = λ _. none;
  tool_bkts = λ _. none;
  last_swept = now;
  sweep_every = 300_000_000_000;
}

-- What the sweeping loop leaves under one key.
unfoldable pub keep : ℕ → Option Bucket → Option Bucket
keep now none = none
keep now (some b) = if ltb idle (now - b.last_touched) then none else some b

unfoldable pub sweep_locked : ℕ → Limiter → Limiter
sweep_locked now l = record l {
  global_bkts = λ k. keep now (l.global_bkts k);
  tool_bkts = λ k. keep now (l.tool_bkts k);
}

-- One tick of `RunSweeper`; the lazy sweep of `Allow` does the same when it is due.
unfoldable pub sweeper_tick : ℕ → Limiter → Limiter
sweeper_tick now l = record (sweep_locked now l) { last_swept = now }

unfoldable pub lazy_sweep : ℕ → Limiter → Limiter
lazy_sweep now l = if ltb l.sweep_every (now - l.last_swept) then sweeper_tick now l else l

abbrev pub bucket_or_new : BucketCfg → ℕ → Option Bucket → Bucket
bucket_or_new cfg now none = new_bucket cfg now
bucket_or_new cfg now (some b) = b

-- `l.perTool[tool]`, with Go's zero value for a missing key.
abbrev pub cfg_or_zero : Option BucketCfg → BucketCfg
cfg_or_zero none = record { sustained_per_min = 0; burst = 0; disabled = false }
cfg_or_zero (some c) = c

-- `caller + ":" + tool`
unfoldable pub tool_key : Bytes → Bytes → Bytes
tool_key caller tool = caller ++ (b':' ∷ tool)

abbrev pub Verdict : Type 0
Verdict = Bool × String

-- The body of `if l.expensive[tool]`; `gb` is the caller's global bucket after the take.
unfoldable pub allow_tool : ℕ → Bytes → Bytes → Bucket → Limiter → Limiter × Verdict
allow_tool now caller tool gb l =
    let cfg = cfg_or_zero (l.per_tool tool) in
    if cfg.disabled
    then (l, (true, ""))
    else let key = tool_key caller tool in
      let (tb, took) = try_take now (bucket_or_new cfg now (l.tool_bkts key)) in
      let taken = record l { tool_bkts = put key tb l.tool_bkts } in
      if took then (taken, (true, "")) else (
        record taken { global_bkts = put caller (refund gb now) taken.global_bkts },
        (false, "tool"),
      )

unfoldable pub allow_swept : ℕ → Bytes → Bytes → Limiter → Limiter × Verdict
unfolding allow_tool
allow_swept now caller tool l =
    let (gb, took) = try_take now (bucket_or_new l.global now (l.global_bkts caller)) in
    let taken = record l { global_bkts = put caller gb l.global_bkts } in
    if not took
    then (taken, (false, "global"))
    else if taken.expensive tool
    then allow_tool now caller tool gb taken
    else (taken, (true, ""))

unfoldable pub allow : ℕ → Bytes → Bytes → Limiter → Limiter × Verdict
allow now caller tool l = allow_swept now caller tool (lazy_sweep now l)
