-- ===== src/Config/Metered.antt =====
-- What the limiter of a daemon that daemon/cmd/daemon/main.go starts grants to a caller.
use host_health_mcp.Base.{
  ℕ, ◌+◌, ◌-◌, ◌*◌, ◌<◌, ◌≤◌, ◌≡◌, refl, sym, subst, Bytes, codes, text_eq, text_eq_iff, true, none,
  some, List, [], ◌∷◌, All, inl, inr, arith, Bool-cases,
}
use host_health_mcp.Base.Result.{ok}
use host_health_mcp.Base.Assoc.{lookup}
use host_health_mcp.Base.Eq.{bytes_eq}
use host_health_mcp.RateLimit.{is_key, cfg_or_zero, new, keep, idle}
use host_health_mcp.RateLimit.Buckets.{BucketCfg, Bucket, token, capacity}
use host_health_mcp.RateLimit.Keys.{NoColon}
use host_health_mcp.RateLimit.Level.{RefillsIdle, level}
use host_health_mcp.RateLimit.Invariant.{IsConfigured}
use host_health_mcp.RateLimit.Rate.{Event, grants, final, Chronological, grants_bound}
use host_health_mcp.Config.{Daemon, Manifest}
use host_health_mcp.Config.Units.{is_in}
use host_health_mcp.Config.Lenient.{Decoded}
use host_health_mcp.Config.Startup.{Checks, Started, is_registered, global_limit, limiter_of, start}
use host_health_mcp.Config.Safe.{start-IsSafe}

-- What is found under a key is an entry of that key.
lookup-named :
    (P : Bytes → Type 0) (tool : Bytes) (m : List (Bytes × BucketCfg))
    → All (λ e. P e.0) m
    → is_key (lookup tool m) ≡ true
    → P tool
unfolding lookup
lookup-named P tool [] all h = absurd (ground (arith, h))
lookup-named P tool ((j, c) ∷ m) all h = elim (Bool-cases (text_eq j tool)) [
  | inl same ↦ subst P ((text_eq_iff j tool).0 same) all.0
  | inr other ↦ lookup-named P tool m all.1 (rw other at h)
]

lookup-held :
    (P : BucketCfg → Type 0) (tool : Bytes) (m : List (Bytes × BucketCfg))
    → All (λ e. P e.1) m
    → is_key (lookup tool m) ≡ true
    → P (cfg_or_zero (lookup tool m))
unfolding lookup
lookup-held P tool [] all h = absurd (ground (arith, h))
lookup-held P tool ((j, c) ∷ m) all h = elim (Bool-cases (text_eq j tool)) [
  | inl same ↦ rw same all.0
  | inr other ↦ rw other (lookup-held P tool m all.1 (rw other at h))
]

is_in-NoColon : (t : Bytes) (xs : List Bytes) → All NoColon xs → is_in t xs ≡ true → NoColon t
unfolding is_in
is_in-NoColon t [] all h = absurd (ground (arith, h))
is_in-NoColon t (x ∷ xs) all h = elim (Bool-cases (text_eq t x)) [
  | inl same ↦ subst NoColon (sym ((text_eq_iff t x).0 same)) all.0
  | inr other ↦ is_in-NoColon t xs all.1 (rw other at h)
]

registered-NoColon :
    (k : Checks) (m : List (Bytes × BucketCfg))
    → All NoColon k.registered
    → All (λ e. is_registered k e.0 ≡ true) m
    → All (λ e. NoColon e.0) m
registered-NoColon k [] names all = tt
registered-NoColon k ((tool, c) ∷ m) names all = (
  is_in-NoColon tool (codes "manifest" ∷ k.registered) (manifest-NoColon, names) all.0,
  registered-NoColon k m names all.1,
)
  where
    manifest-NoColon : NoColon (codes "manifest")
    manifest-NoColon = omega arith

module _ (k : Checks) (daemon_yml : Decoded Daemon) (manifest_yml : Decoded Manifest) (s : Started)
    (starts : start k daemon_yml manifest_yml ≡ ok s) (names : All NoColon k.registered)
    (refills : All (λ e. RefillsIdle e.1) s.limits) where
  limiter_of-IsConfigured : (now : ℕ) → IsConfigured (limiter_of s now)
  unfolding limiter_of new
  limiter_of-IsConfigured now =
      let safe = start-IsSafe k daemon_yml manifest_yml s starts in
      record {
        names = λ tool m.
            lookup-named NoColon tool s.limits (registered-NoColon k s.limits names safe.named) m;
        refills = omega arith;
        tool_refills = λ tool m. lookup-held RefillsIdle tool s.limits refills m;
      }

  -- A daemon that starts, with tools whose names have no colon and buckets that refill within the ten
  -- minutes after which an idle one is dropped, grants a caller at most ten calls and thirty more for each
  -- minute of a run, whatever else is configured and whatever other callers do.
  pub start-grants :
      (caller : Bytes) (now : ℕ) (es : List Event)
      → Chronological now es
      → grants caller es (limiter_of s now) * token ≤ 10 * token + (final now es - now) * 30
  unfolding limiter_of
  start-grants caller now es h =
      grants_bound caller global_limit (λ tool. lookup tool s.limits) now es
        (limiter_of-IsConfigured now) refl h

-- A sweep drops an emptied bucket that is idle for more than ten minutes, also if it is not full again
-- yet, as one of a burst above ten minutes' rate (a rate below 60 * 10^9) is not: the next call of its
-- caller finds a new bucket, which is full.
pub forgotten :
    (cfg : BucketCfg) (t : ℕ)
    → 10 * cfg.sustained_per_min < cfg.burst
    → cfg.sustained_per_min < token
    → let b : Bucket = record { cfg = cfg; tokens = 0; last_fill = t; last_touched = t } in
      let now = t + idle + 1 in (keep now (some b) ≡ none) × (level now b < capacity cfg)
unfolding keep level
forgotten cfg t h small =
    let gap : t + idle + 1 - t ≡ idle + 1 = omega arith in rw gap (refl, ground (arith, h, small))
