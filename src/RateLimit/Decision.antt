-- ===== src/RateLimit/Decision.antt =====
-- What `Allow` of daemon/internal/daemon/ratelimit/ratelimit.go decides and charges, in terms of
-- the levels of the buckets before the call.
use host_health_mcp.Base.{
  ℕ, ◌≡◌, sym, ◌∙◌, ap, Bytes, Bool, true, false, not, ◌&&◌, Option, arith, if◌then◌else◌,
  text_eq_iff, leb,
}
use host_health_mcp.RateLimit.Buckets.{BucketCfg, Bucket, token, unlimited, try_take}
use host_health_mcp.RateLimit.Keys.{NoColon, tool_key-injective}
use host_health_mcp.RateLimit.Level.{
  AllFilled, held, IsFilled-bucket_or_new, IsFilled-try_take, IsFilled-refund,
}
use host_health_mcp.RateLimit.Invariant.{
  IsConfigured, IsConfigured-same, IsValid, SameCfg-allow_swept, IsValid-lazy_sweep,
  SameCfg-lazy_sweep,
}
use host_health_mcp.RateLimit.{
  Limiter, Verdict, put, lazy_sweep, tool_key, allow_swept, allow, cfg_or_zero, bucket_or_new,
}

-- A bucket permits a call when it is unlimited or holds a token.
unfoldable pub permits : BucketCfg → ℕ → Option Bucket → Bool
permits cfg now o = if unlimited cfg then true else leb token (held cfg now o)

-- The verdict by the levels alone.
unfoldable pub decision : ℕ → Bytes → Bytes → Limiter → Verdict
decision now caller tool l =
    let cfg = cfg_or_zero (l.per_tool tool) in
    if not (permits l.global now (l.global_bkts caller))
    then (false, "global")
    else if l.expensive tool
        && not cfg.disabled
        && not (permits cfg now (l.tool_bkts (tool_key caller tool)))
    then (false, "tool")
    else (true, "")

module _ (now : ℕ) (caller tool : Bytes) (l : Limiter) (v : IsValid now l) where
  globals_kept :
      (k : Bytes) → AllFilled l.global now ((allow_swept now caller tool l).0.global_bkts k)
  unfolding allow_swept put
  globals_kept k x e =
      let old = bucket_or_new l.global now (l.global_bkts caller) in
      let f = IsFilled-bucket_or_new l.global now (l.global_bkts caller) (v.globals caller) in
      let g = IsFilled-try_take now old f in
      ground (arith, g, IsFilled-refund now (try_take now old).0 g, v.globals k x)

  tools_kept :
      ((u : Bytes) → l.expensive u ≡ true → NoColon u)
      → (c u : Bytes) → l.expensive u ≡ true
      → AllFilled
          (cfg_or_zero (l.per_tool u))
          now
          ((allow_swept now caller tool l).0.tool_bkts (tool_key c u))
  unfolding allow_swept put
  tools_kept names c u m x e =
      let cfg = cfg_or_zero (l.per_tool tool) in
      let o = l.tool_bkts (tool_key caller tool) in
      let fill = λ (h : l.expensive tool ≡ true).
        IsFilled-try_take now (bucket_or_new cfg now o)
          (IsFilled-bucket_or_new cfg now o (v.tools caller tool h)) in
      let same = λ (h : l.expensive tool ≡ true) (p : tool_key caller tool ≡ tool_key c u).
        (tool_key-injective caller c tool u (names tool h) (names u m) p).1 in
      ground (arith, fill, same, text_eq_iff (tool_key caller tool) (tool_key c u), v.tools c u m x)

  IsValid-allow_swept : IsConfigured l → IsValid now (allow_swept now caller tool l).0
  IsValid-allow_swept c =
      let same = SameCfg-allow_swept now caller tool l in
      record {
        globals = λ k. rw same.global (globals_kept k);
        tools = λ d u m.
            rw same.per_tool (tools_kept c.names d u (ap (λ f. f u) (sym same.expensive) ∙ m));
      }

-- A call keeps the limiter well formed.
pub IsValid-allow :
    (now : ℕ) (caller tool : Bytes) (l : Limiter)
    → IsConfigured l
    → IsValid now l
    → IsValid now (allow now caller tool l).0
unfolding allow
IsValid-allow now caller tool l c v =
    IsValid-allow_swept now caller tool (lazy_sweep now l) (IsValid-lazy_sweep now l v)
      (IsConfigured-same (SameCfg-lazy_sweep now l) c)
