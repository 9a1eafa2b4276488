-- ===== src/RateLimit/Invariant.antt =====
-- Well-formed limiters of daemon/internal/daemon/ratelimit/ratelimit.go, and what a sweep keeps.
use host_health_mcp.Base.{
  ℕ, ◌≤◌, ◌-◌, ◌≡◌, refl, Bytes, true, Option, arith, ltb, inl, inr, Bool-cases,
}
use host_health_mcp.RateLimit.Buckets.{BucketCfg}
use host_health_mcp.RateLimit.Keys.{NoColon}
use host_health_mcp.RateLimit.Level.{
  RefillsIdle, AllFilled, held, held-keep, AllFilled-keep, IsFilled-later,
}
use host_health_mcp.RateLimit.{
  Limiter, new, sweep_locked, sweeper_tick, lazy_sweep, tool_key, allow_swept, cfg_or_zero,
}

-- What the configuration has to satisfy: names of metered tools hold no colon, and every bucket
-- refills within the ten minutes after which an idle one is dropped.
pub record IsConfigured (l : Limiter) : Type 0 where
  pub names : (tool : Bytes) → l.expensive tool ≡ true → NoColon tool
  pub refills : RefillsIdle l.global
  pub tool_refills :
      (tool : Bytes) → l.expensive tool ≡ true → RefillsIdle (cfg_or_zero (l.per_tool tool))

pub record IsValid (now : ℕ) (l : Limiter) : Type 0 where
  pub globals : (k : Bytes) → AllFilled l.global now (l.global_bkts k)
  pub tools :
      (caller tool : Bytes)
      → l.expensive tool ≡ true
      → AllFilled (cfg_or_zero (l.per_tool tool)) now (l.tool_bkts (tool_key caller tool))

pub IsValid-new :
    (g : BucketCfg) (p : Bytes → Option BucketCfg) (start now : ℕ) → IsValid now (new g p start)
unfolding new
IsValid-new g p start now = record { globals = λ k b e. cc; tools = λ c t h b e. cc }

pub IsValid-later : (a b : ℕ) (l : Limiter) → IsValid a l → a ≤ b → IsValid b l
IsValid-later a b l v h = record {
  globals = λ k x e. IsFilled-later l.global a b x (v.globals k x e) h;
  tools = λ c t m x e. IsFilled-later (cfg_or_zero (l.per_tool t)) a b x (v.tools c t m x e) h;
}

pub IsValid-sweeper_tick :
    (now : ℕ) (l : Limiter) → IsValid now l → IsValid now (sweeper_tick now l)
unfolding sweeper_tick sweep_locked
IsValid-sweeper_tick now l v = record {
  globals = λ k. AllFilled-keep l.global now (l.global_bkts k) (v.globals k);
  tools = λ c t m.
      AllFilled-keep (cfg_or_zero (l.per_tool t)) now (l.tool_bkts (tool_key c t)) (v.tools c t m);
}

pub IsValid-lazy_sweep : (now : ℕ) (l : Limiter) → IsValid now l → IsValid now (lazy_sweep now l)
unfolding lazy_sweep
IsValid-lazy_sweep now l v = elim (Bool-cases (ltb l.sweep_every (now - l.last_swept))) [
  | inl due ↦ rw due (IsValid-sweeper_tick now l v)
  | inr early ↦ rw early v
]

-- The fields that no operation writes.
pub record SameCfg (l m : Limiter) : Type 0 where
  pub global : m.global ≡ l.global
  pub per_tool : m.per_tool ≡ l.per_tool
  pub expensive : m.expensive ≡ l.expensive

pub SameCfg-sweeper_tick : (now : ℕ) (l : Limiter) → SameCfg l (sweeper_tick now l)
unfolding sweeper_tick sweep_locked
SameCfg-sweeper_tick now l = record { global = refl; per_tool = refl; expensive = refl }

pub SameCfg-lazy_sweep : (now : ℕ) (l : Limiter) → SameCfg l (lazy_sweep now l)
unfolding lazy_sweep sweeper_tick sweep_locked
SameCfg-lazy_sweep now l = ground arith

pub SameCfg-allow_swept :
    (now : ℕ) (c t : Bytes) (l : Limiter) → SameCfg l (allow_swept now c t l).0
unfolding allow_swept
SameCfg-allow_swept now c t l = ground arith

pub IsConfigured-same : {l m : Limiter} → SameCfg l m → IsConfigured l → IsConfigured m
IsConfigured-same s c = record {
  names = rw s.expensive c.names;
  refills = rw s.global c.refills;
  tool_refills = rw (s.expensive, s.per_tool) c.tool_refills;
}

-- A sweep changes the level of no bucket.
pub held-lazy_sweep :
    (now : ℕ) (l : Limiter) (k : Bytes)
    → RefillsIdle l.global
    → IsValid now l
    → held l.global now ((lazy_sweep now l).global_bkts k) ≡ held l.global now (l.global_bkts k)
unfolding lazy_sweep sweeper_tick sweep_locked
held-lazy_sweep now l k r v =
    ground (arith, held-keep l.global now (l.global_bkts k) r (v.globals k))

pub held_tool-lazy_sweep :
    (now : ℕ) (l : Limiter) (k : Bytes) (cfg : BucketCfg)
    → RefillsIdle cfg
    → AllFilled cfg now (l.tool_bkts k)
    → held cfg now ((lazy_sweep now l).tool_bkts k) ≡ held cfg now (l.tool_bkts k)
unfolding lazy_sweep sweeper_tick sweep_locked
held_tool-lazy_sweep now l k cfg r f = ground (arith, held-keep cfg now (l.tool_bkts k) r f)
