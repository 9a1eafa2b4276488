-- ===== src/Cache/Flights.antt =====
-- The counts of started and unreturned invocations in daemon/internal/daemon/cache/cache.go:
-- `admit`, `enter`, `leave` and `InFlight`, each under `c.ifMu`. A map is a function; the total is a
-- number because `leave` only runs deferred, behind an `enter`.
use host_health_mcp.Base.{
  ℕ, ◌+◌, ◌-◌, Bytes, Bool, true, false, not, ◌&&◌, ◌||◌, leb, text_eq, if◌then◌else◌,
}

abbrev pub max_in_flight_per_key : ℕ
max_in_flight_per_key = 2

abbrev pub max_in_flight_total : ℕ
max_in_flight_total = 64

pub record Flights : Type 0 where
  pub in_flight : Bytes → ℕ
  pub in_flight_total : ℕ
  pub stalled : Bytes → Bool

abbrev pub none_running : Flights
none_running = record { in_flight = λ _. 0; in_flight_total = 0; stalled = λ _. false }

-- `m[k] = v`
unfoldable pub set_at {ℓ} : {A : Type ℓ} → Bytes → A → (Bytes → A) → Bytes → A
set_at k v m j = if text_eq k j then v else m j

-- False for `ErrStalled`.
unfoldable pub admit : Bytes → Flights → Bool
admit k f =
    not (leb max_in_flight_per_key (f.in_flight k) || leb max_in_flight_total f.in_flight_total)

-- The flag says whether the stall is logged.
unfoldable pub enter : Bytes → Flights → Flights × Bool
unfolding set_at
enter k f =
    let g = record f {
      in_flight = set_at k (f.in_flight k + 1) f.in_flight;
      in_flight_total = f.in_flight_total + 1;
    } in
    if leb max_in_flight_per_key (g.in_flight k) && not (g.stalled k)
    then (record g { stalled = set_at k true g.stalled }, true)
    else (g, false)

unfoldable pub leave : Bytes → Flights → Flights
unfolding set_at
leave k f =
    let g = record f { in_flight_total = f.in_flight_total - 1 } in
    if leb (f.in_flight k) 1
    then record g { in_flight = set_at k 0 g.in_flight; stalled = set_at k false g.stalled }
    else record g { in_flight = set_at k (f.in_flight k - 1) g.in_flight }

unfoldable pub in_flight_of : Bytes → Flights → ℕ × ℕ
in_flight_of k f = (f.in_flight k, f.in_flight_total)
