-- ===== src/RateLimit/Rate.antt =====
-- The rate that the limiter of daemon/internal/daemon/ratelimit/ratelimit.go enforces over a run:
-- any sequence of calls by any callers, with ticks of the background sweeper between them.
use host_health_mcp.Base.{
  ℕ, ◌+◌, ◌-◌, ◌*◌, ◌≤◌, ◌≡◌, subst, ◌∙◌, ap, Bytes, Bool, false, ◌&&◌, Option, List, [], ◌∷◌,
  arith, if◌then◌else◌, text_eq, mul_span,
}
use host_health_mcp.RateLimit.Buckets.{BucketCfg, token, unlimited}
use host_health_mcp.RateLimit.Level.{held, held_mono, held-keep, level-new_bucket}
use host_health_mcp.RateLimit.Invariant.{
  IsConfigured, IsConfigured-same, IsValid, IsValid-new, IsValid-later, IsValid-sweeper_tick,
  SameCfg, SameCfg-sweeper_tick, SameCfg-lazy_sweep, SameCfg-allow_swept,
}
use host_health_mcp.RateLimit.Decision.{IsValid-allow}
use host_health_mcp.RateLimit.Charge.{cost, global_charge}
use host_health_mcp.RateLimit.{Limiter, new, sweep_locked, sweeper_tick, lazy_sweep, allow}

pub data Event : Type 0 where
  call : ℕ → Bytes → Bytes → Event
  tick : ℕ → Event

abbrev pub time : Event → ℕ
time (call now _ _) = now
time (tick now) = now

unfoldable pub step : Event → Limiter → Limiter
step (call now caller tool) l = (allow now caller tool l).0
step (tick now) l = sweeper_tick now l

-- Whether the event is a granted call of this caller.
unfoldable pub granted : Bytes → Event → Limiter → Bool
granted k (call now caller tool) l = text_eq caller k && (allow now caller tool l).1.0
granted k (tick now) l = false

unfoldable pub grants : Bytes → List Event → Limiter → ℕ
grants k [] l = 0
grants k (e ∷ es) l = (if granted k e l then 1 else 0) + grants k es (step e l)

abbrev pub final : ℕ → List Event → ℕ
final now [] = now
final now (e ∷ es) = final (time e) es

-- Clock readings do not go back.
abbrev pub Chronological : ℕ → List Event → Type 0
Chronological now [] = Unit {0}
Chronological now (e ∷ es) = (now ≤ time e) × Chronological (time e) es

le-final : (now : ℕ) (es : List Event) → Chronological now es → now ≤ final now es
le-final now [] h = omega arith
le-final now (e ∷ es) h = omega (arith, h.0, le-final (time e) es h.1)

SameCfg-step : (e : Event) (l : Limiter) → SameCfg l (step e l)
unfolding step allow
SameCfg-step (call now caller tool) l =
    let a = SameCfg-lazy_sweep now l in
    let b = SameCfg-allow_swept now caller tool (lazy_sweep now l) in
    record {
      global = b.global ∙ a.global;
      per_tool = b.per_tool ∙ a.per_tool;
      expensive = b.expensive ∙ a.expensive;
    }
SameCfg-step (tick now) l = SameCfg-sweeper_tick now l

IsValid-step :
    (e : Event) (l : Limiter) → IsConfigured l → IsValid (time e) l → IsValid (time e) (step e l)
unfolding step
IsValid-step (call now caller tool) l c v = IsValid-allow now caller tool l c v
IsValid-step (tick now) l c v = IsValid-sweeper_tick now l v

-- One event spends what it grants.
step_charge :
    (k : Bytes) (e : Event) (l : Limiter)
    → IsConfigured l
    → IsValid (time e) l
    → unlimited l.global ≡ false
    → held l.global (time e) ((step e l).global_bkts k) + cost (granted k e l)
      ≡ held l.global (time e) (l.global_bkts k)
unfolding step granted sweeper_tick sweep_locked
step_charge k (call now caller tool) l c v u = global_charge now caller tool l c v u k
step_charge k (tick now) l c v u =
    omega (arith, held-keep l.global now (l.global_bkts k) c.refills (v.globals k))

rate_from :
    (k : Bytes) (es : List Event) (now : ℕ) (l : Limiter)
    → IsConfigured l
    → IsValid now l
    → unlimited l.global ≡ false
    → Chronological now es
    → grants k es l * token
      ≤ held l.global now (l.global_bkts k) + (final now es - now) * l.global.sustained_per_min
unfolding grants
rate_from k [] now l c v u h = omega arith
rate_from k (e ∷ es) now l c v u h =
    let t = time e in
    let l' = step e l in
    let v' = IsValid-later now t l v h.0 in
    let same = SameCfg-step e l in
    let ih =
      rate_from k es t l' (IsConfigured-same same c) (IsValid-step e l c v')
        (ap unlimited same.global ∙ u) h.1 in
    let ih' =
      subst
        (λ g.
          grants k es l' * token
          ≤ held g t (l'.global_bkts k) + (final t es - t) * g.sustained_per_min)
        same.global ih in
    ground (
      arith,
      ih',
      step_charge k e l c v' u,
      held_mono l.global now t (l.global_bkts k) (v.globals k) h.0,
      mul_span now t (final t es) l.global.sustained_per_min h.0 (le-final t es h.1),
    )

-- In any run of a new limiter, whatever other callers do and whenever idle buckets are swept, a
-- caller is granted at most the burst and what the sustained rate accrues in the time of the run.
-- The global configuration is limited and meets `IsConfigured`; clock readings do not go back.
pub grants_bound :
    (k : Bytes) (g : BucketCfg) (p : Bytes → Option BucketCfg) (start : ℕ) (es : List Event)
    → IsConfigured (new g p start)
    → unlimited g ≡ false
    → Chronological start es
    → grants k es (new g p start) * token
      ≤ g.burst * token + (final start es - start) * g.sustained_per_min
grants_bound k g p start es c u h =
    subst
      (λ n.
        grants k es (new g p start) * token ≤ n + (final start es - start) * g.sustained_per_min)
      (level-new_bucket g start)
      (unfold new in rate_from k es start (new g p start) c (IsValid-new g p start start) u h)
