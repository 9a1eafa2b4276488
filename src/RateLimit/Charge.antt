-- ===== src/RateLimit/Charge.antt =====
-- What a call of `Allow` in daemon/internal/daemon/ratelimit/ratelimit.go takes from each bucket.
use host_health_mcp.Base.{
  ℕ, ◌+◌, ◌≡◌, subst, sym, ◌∙◌, ap, Bytes, Bool, true, false, ◌&&◌, arith, if◌then◌else◌, text_eq,
  text_eq_iff,
}
use host_health_mcp.RateLimit.Buckets.{BucketCfg, token, unlimited}
use host_health_mcp.RateLimit.Keys.{NoColon, tool_key-injective}
use host_health_mcp.RateLimit.Level.{held, IsFilled-bucket_or_new, take_yes, take_no, refund_take}
use host_health_mcp.RateLimit.Invariant.{
  IsConfigured, IsConfigured-same, IsValid, IsValid-lazy_sweep, SameCfg-lazy_sweep, held-lazy_sweep,
  held_tool-lazy_sweep,
}
use host_health_mcp.RateLimit.{
  Limiter, put, lazy_sweep, tool_key, allow_swept, allow, cfg_or_zero, bucket_or_new,
}

-- A token if the test holds.
abbrev pub cost : Bool → ℕ
cost b = if b then token else 0

module _ (now : ℕ) (caller tool : Bytes) (l : Limiter) (v : IsValid now l) where
  swept_charge :
      unlimited l.global ≡ false
      → (k : Bytes)
      → held l.global now ((allow_swept now caller tool l).0.global_bkts k)
          + cost (text_eq caller k && (allow_swept now caller tool l).1.0)
        ≡ held l.global now (l.global_bkts k)
  unfolding allow_swept put
  swept_charge u k =
      let old = bucket_or_new l.global now (l.global_bkts caller) in
      let f = IsFilled-bucket_or_new l.global now (l.global_bkts caller) (v.globals caller) in
      let limited : unlimited old.cfg ≡ false = rw f.same_cfg u in
      ground (
        arith,
        take_yes now old limited,
        take_no now old limited,
        refund_take now old,
        text_eq_iff caller k,
      )

  swept_tool_charge :
      ((u : Bytes) → l.expensive u ≡ true → NoColon u)
      → (c u : Bytes) → l.expensive u ≡ true
      → (cfg_or_zero (l.per_tool u)).disabled ≡ false
      → unlimited (cfg_or_zero (l.per_tool u)) ≡ false
      → held
            (cfg_or_zero (l.per_tool u))
            now
            ((allow_swept now caller tool l).0.tool_bkts (tool_key c u))
          + cost (text_eq caller c && text_eq tool u && (allow_swept now caller tool l).1.0)
        ≡ held (cfg_or_zero (l.per_tool u)) now (l.tool_bkts (tool_key c u))
  unfolding allow_swept put
  swept_tool_charge names c u m d limited =
      let cfg = cfg_or_zero (l.per_tool u) in
      let old = bucket_or_new cfg now (l.tool_bkts (tool_key c u)) in
      let f = IsFilled-bucket_or_new cfg now (l.tool_bkts (tool_key c u)) (v.tools c u m) in
      let limited' : unlimited old.cfg ≡ false = rw f.same_cfg limited in
      let same = λ (h : l.expensive tool ≡ true).
        tool_key-injective caller c tool u (names tool h) (names u m) in
      ground (
        arith,
        take_yes now old limited',
        take_no now old limited',
        same,
        text_eq_iff (tool_key caller tool) (tool_key c u),
        text_eq_iff caller c,
        text_eq_iff tool u,
      )

module _ (now : ℕ) (caller tool : Bytes) (l : Limiter) (c : IsConfigured l)
    (v : IsValid now l) where
  pub global_charge :
      unlimited l.global ≡ false
      → (k : Bytes)
      → held l.global now ((allow now caller tool l).0.global_bkts k)
          + cost (text_eq caller k && (allow now caller tool l).1.0)
        ≡ held l.global now (l.global_bkts k)
  unfolding allow
  global_charge u k =
      let s = lazy_sweep now l in
      let same = SameCfg-lazy_sweep now l in
      rw (ap (λ g. held g now ((allow_swept now caller tool s).0.global_bkts k)) (sym same.global))
        (swept_charge now caller tool s (IsValid-lazy_sweep now l v) (rw same.global u) k
          ∙ rw same.global (held-lazy_sweep now l k c.refills v))

  -- Likewise for the bucket of a metered tool whose configuration is limited and not opted out: a
  -- granted call of that tool by that caller takes one token, and no other call takes any.
  pub tool_charge :
      (d u : Bytes)
      → l.expensive u ≡ true
      → (cfg_or_zero (l.per_tool u)).disabled ≡ false
      → unlimited (cfg_or_zero (l.per_tool u)) ≡ false
      → held (cfg_or_zero (l.per_tool u)) now ((allow now caller tool l).0.tool_bkts (tool_key d u))
          + cost (text_eq caller d && text_eq tool u && (allow now caller tool l).1.0)
        ≡ held (cfg_or_zero (l.per_tool u)) now (l.tool_bkts (tool_key d u))
  unfolding allow
  tool_charge d u m opted limited =
      let s = lazy_sweep now l in
      let same = SameCfg-lazy_sweep now l in
      let names = (IsConfigured-same same c).names in
      let cfg : Bytes → BucketCfg = λ x. cfg_or_zero (l.per_tool x) in
      let swept =
        swept_tool_charge now caller tool s (IsValid-lazy_sweep now l v) names d u
          (ap (λ f. f u) same.expensive ∙ m)
          (ap (λ p. (cfg_or_zero (p u)).disabled) same.per_tool ∙ opted)
          (ap (λ p. unlimited (cfg_or_zero (p u))) same.per_tool ∙ limited) in
      let after = (allow_swept now caller tool s).0.tool_bkts (tool_key d u) in
      let spent =
        cost (text_eq caller d && text_eq tool u && (allow_swept now caller tool s).1.0) in
      subst
        (λ p.
          held (cfg_or_zero (p u)) now after + spent
          ≡ held (cfg_or_zero (p u)) now (s.tool_bkts (tool_key d u)))
        same.per_tool swept
      ∙ held_tool-lazy_sweep now l (tool_key d u) (cfg u) (c.tool_refills u m) (v.tools d u m)
