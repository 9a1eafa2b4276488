-- ===== src/HttpServer/Limits.antt =====
-- `Daemon.CacheTTL` and `Daemon.Timeout` of daemon/internal/daemon/config/config.go.
-- A Duration is the bit pattern of an int64 in nanoseconds, so the product with a second wraps.
use host_health_mcp.Base.{
  ℕ, ◌*◌, ◌%◌, ◌^◌, ◌≤◌, ◌<◌, ◌≡◌, refl, Option, none, some, Bytes, min, if◌then◌else◌, arith,
}
use host_health_mcp.Helper.Deadline.{ℤ, positive, int64_gt}
use host_health_mcp.HttpServer.Replies.{second}

abbrev pub Overrides : Type 0
Overrides = Bytes → Option ℤ

abbrev pub override : Option ℤ → Option ℕ
override none = none
override (some v) = positive v

abbrev pub in_seconds : ℕ → Option ℕ → ℕ
in_seconds fallback none = fallback
in_seconds fallback (some v) = v * second % 2 ^ 64

unfoldable pub cache_ttl : Overrides → Bytes → ℕ → ℕ
cache_ttl overrides tool fallback = in_seconds fallback (override (overrides tool))

abbrev pub max_timeout : ℕ
max_timeout = 10 * second

unfoldable pub timeout : Overrides → Bytes → ℕ → ℕ
timeout overrides tool fallback =
    let t = in_seconds fallback (override (overrides tool)) in
    if int64_gt t max_timeout then max_timeout else t

-- One option at a time.
seconds_cut :
    (fallback : ℕ) (o : Option ℕ)
    → fallback < 2 ^ 63
    → ((v : ℕ) → o ≡ some v → v * second < 2 ^ 63)
    → (let t = in_seconds fallback o in
        let cut = if int64_gt t max_timeout then max_timeout else t in
        (cut ≤ max_timeout)
        × ((v : ℕ) → o ≡ some v → (cut ≡ min (v * second) max_timeout) × (t ≡ v * second))
        × (o ≡ none → (cut ≡ min fallback max_timeout) × (t ≡ fallback)))
seconds_cut fallback none f small = (ground arith, λ v e. cc, λ e. ground arith)
seconds_cut fallback (some u) f small =
    let fits = small u refl in (ground (arith, fits), λ v e. ground (arith, fits), λ e. cc)

-- Where no product overflows an int64 and the fallback is not negative, a tool's timeout is the
-- override or else the fallback, cut at ten seconds, and its TTL is the override or else the
-- fallback.
pub timeout_lem :
    (overrides : Overrides) (tool : Bytes) (fallback : ℕ)
    → fallback < 2 ^ 63
    → ((v : ℕ) → override (overrides tool) ≡ some v → v * second < 2 ^ 63)
    → (timeout overrides tool fallback ≤ max_timeout)
      × ((v : ℕ)
          → override (overrides tool) ≡ some v
          → (timeout overrides tool fallback ≡ min (v * second) max_timeout)
            × (cache_ttl overrides tool fallback ≡ v * second))
      × (override (overrides tool) ≡ none
          → (timeout overrides tool fallback ≡ min fallback max_timeout)
            × (cache_ttl overrides tool fallback ≡ fallback))
unfolding timeout cache_ttl
timeout_lem overrides tool fallback f small =
    seconds_cut fallback (override (overrides tool)) f small
