-- ===== src/RateLimit/Level.antt =====
-- The level of a bucket: what it holds at a moment, refilled and clipped. The tokens stored by
-- `bucket` in daemon/internal/daemon/ratelimit/ratelimit.go are its value at the last refill.
use native.Mathlib.Nat.{sub_self}
use host_health_mcp.Base.{
  ℕ, ◌+◌, ◌-◌, ◌*◌, ◌≤◌, ◌<◌, ◌≡◌, refl, subst, true, false, Option, none, some, arith, leb,
  if◌then◌else◌, mul_span, mul_mono,
}
use host_health_mcp.RateLimit.Buckets.{
  BucketCfg, Bucket, token, capacity, clip, unlimited, new_bucket, try_take, refund,
}
use host_health_mcp.RateLimit.{idle, keep, bucket_or_new}

span_self : (now s : ℕ) → (now - now) * s ≡ 0
span_self now s = rw (sub_self now) (omega arith)

unfoldable pub level : ℕ → Bucket → ℕ
level now b = clip b.cfg (b.tokens + (now - b.last_fill) * b.cfg.sustained_per_min)

pub record IsFilled (cfg : BucketCfg) (now : ℕ) (b : Bucket) : Type 0 where
  pub same_cfg : b.cfg ≡ cfg
  pub fill_touch : b.last_fill ≤ b.last_touched
  pub touch_now : b.last_touched ≤ now

-- Refills in ten minutes, so that a bucket dropped as idle was full.
abbrev pub RefillsIdle : BucketCfg → Type 0
RefillsIdle cfg = cfg.burst ≤ 10 * cfg.sustained_per_min

pub level-new_bucket : (cfg : BucketCfg) (now : ℕ) → level now (new_bucket cfg now) ≡ capacity cfg
unfolding level new_bucket
level-new_bucket cfg now = ground (arith, span_self now cfg.sustained_per_min)

pub level_mono :
    (a b : ℕ) (k : Bucket)
    → k.last_fill ≤ a
    → a ≤ b
    → level b k ≤ level a k + (b - a) * k.cfg.sustained_per_min
unfolding level
level_mono a b k h g = ground (arith, mul_span k.last_fill a b k.cfg.sustained_per_min h g)

module _ (now : ℕ) (b : Bucket) where
  pub take_yes :
      unlimited b.cfg ≡ false
      → (try_take now b).1 ≡ true
      → level now (try_take now b).0 + token ≡ level now b
  unfolding level try_take
  take_yes u t = ground (arith, span_self now b.cfg.sustained_per_min)

  pub try_take-level :
      (try_take now b).1 ≡ (if unlimited b.cfg then true else leb token (level now b))
  unfolding level try_take
  try_take-level = ground arith

  pub take_no :
      unlimited b.cfg ≡ false
      → (try_take now b).1 ≡ false
      → level now (try_take now b).0 ≡ level now b
  unfolding level try_take
  take_no u t = ground (arith, span_self now b.cfg.sustained_per_min)

  pub take_le : level now (try_take now b).0 ≤ level now b
  unfolding level try_take
  take_le = ground (arith, span_self now b.cfg.sustained_per_min)

  -- A refund right after a take restores the level, clipped to the capacity or not.
  pub refund_take :
      (try_take now b).1 ≡ true → level now (refund (try_take now b).0 now) ≡ level now b
  unfolding level try_take refund
  refund_take t = ground (arith, span_self now b.cfg.sustained_per_min)

  pub IsFilled-try_take :
      {cfg : BucketCfg} → IsFilled cfg now b → IsFilled cfg now (try_take now b).0
  unfolding try_take
  IsFilled-try_take f = ground arith

  pub IsFilled-refund : {cfg : BucketCfg} → IsFilled cfg now b → IsFilled cfg now (refund b now)
  unfolding refund
  IsFilled-refund f = ground arith

pub IsFilled-new_bucket : (cfg : BucketCfg) (now : ℕ) → IsFilled cfg now (new_bucket cfg now)
unfolding new_bucket
IsFilled-new_bucket cfg now = ground arith

pub IsFilled-later :
    (cfg : BucketCfg) (a b : ℕ) (k : Bucket) → IsFilled cfg a k → a ≤ b → IsFilled cfg b k
IsFilled-later cfg a b k f h = ground arith

-- A bucket idle for more than ten minutes is at its capacity.
pub level-idle :
    (cfg : BucketCfg) (now : ℕ) (b : Bucket)
    → RefillsIdle cfg
    → IsFilled cfg now b
    → idle < now - b.last_touched
    → level now b ≡ capacity cfg
unfolding level
level-idle cfg now b r f h =
    ground (arith, mul_mono idle (now - b.last_fill) b.cfg.sustained_per_min (omega arith))

abbrev pub held : BucketCfg → ℕ → Option Bucket → ℕ
held cfg now o = level now (bucket_or_new cfg now o)

abbrev pub AllFilled : BucketCfg → ℕ → Option Bucket → Type 0
AllFilled cfg now o = (b : Bucket) → o ≡ some b → IsFilled cfg now b

pub IsFilled-bucket_or_new :
    (cfg : BucketCfg) (now : ℕ) (o : Option Bucket)
    → AllFilled cfg now o
    → IsFilled cfg now (bucket_or_new cfg now o)
IsFilled-bucket_or_new cfg now none f = IsFilled-new_bucket cfg now
IsFilled-bucket_or_new cfg now (some b) f = f b refl

-- The sweep drops only what a new bucket would give back.
pub held-keep :
    (cfg : BucketCfg) (now : ℕ) (o : Option Bucket)
    → RefillsIdle cfg
    → AllFilled cfg now o
    → held cfg now (keep now o) ≡ held cfg now o
unfolding keep
held-keep cfg now none r f = refl
held-keep cfg now (some b) r f =
    ground (arith, level-idle cfg now b r (f b refl), level-new_bucket cfg now)

pub AllFilled-keep :
    (cfg : BucketCfg) (now : ℕ) (o : Option Bucket)
    → AllFilled cfg now o
    → AllFilled cfg now (keep now o)
unfolding keep
AllFilled-keep cfg now none f b e = cc
AllFilled-keep cfg now (some k) f b e = ground (arith, f b)

-- A new bucket is as full as its configuration allows at any time, so only time raises `held`.
pub held_mono :
    (cfg : BucketCfg) (a b : ℕ) (o : Option Bucket)
    → AllFilled cfg a o
    → a ≤ b
    → held cfg b o ≤ held cfg a o + (b - a) * cfg.sustained_per_min
held_mono cfg a b none f h = ground (arith, level-new_bucket cfg a, level-new_bucket cfg b)
held_mono cfg a b (some k) f h =
    let g = f k refl in
    subst (λ c. level b k ≤ level a k + (b - a) * c.sustained_per_min) g.same_cfg
      (level_mono a b k (omega arith) h)
