-- ===== src/Cache/Examples.antt =====
-- Runs of the cache of daemon/internal/daemon/cache/cache.go at concrete inputs.
use host_health_mcp.Base.{
  ◌<◌, ◌≡◌, ◌↔◌, refl, Bytes, codes, true, ◌&&◌, none, some, [], ◌∷◌, arith, length, text_eq,
  if◌then◌else◌,
}
use host_health_mcp.Base.Eq.{bytes_eq}
use host_health_mcp.Base.Assoc
use host_health_mcp.Cache.Entries.{IsValid, store-IsValid, lookup-sweep, lookup-store, accepts}
use host_health_mcp.Cache.Flights.{admit, enter}
use host_health_mcp.Cache.Counts.{count}
use host_health_mcp.Cache.Machine
use host_health_mcp.Cache.Machine.{
  Callers, Step, Reach, idle, arrive, lead, join, finish, here, next, admit-Reach,
}
use host_health_mcp.Cache.{Entry, Entries, expired, lookup, store, sweep}

abbrev reading : Entry
reading = record { payload = codes "{}"; warnings = []; builtat = 10; ttl = 5 }

abbrev dns : Bytes
dns = codes "dns:00"

abbrev held : Entries
held = (dns, reading) ∷ []

held-IsValid : IsValid held
unfolding Assoc.has_key
held-IsValid = record { bounded = omega arith; distinct = (refl, tt) }

-- The entry is served up to its last moment, and not after it.
lookup_ttl : (lookup 15 dns held ≡ some reading) × (lookup 16 dns held ≡ none)
unfolding lookup Assoc.lookup text_eq
lookup_ttl = (refl, refl)

stored_one : IsValid (store 11 (codes "mail:00") reading held)
stored_one = store-IsValid 11 (codes "mail:00") reading held held-IsValid

reading_after_sweep : lookup 12 dns (sweep 12 held) ≡ lookup 12 dns held
reading_after_sweep = lookup-sweep 12 dns held held-IsValid

found_again : lookup 12 dns (store 12 dns reading held) ≡ (
    if accepts 12 dns held && bytes_eq.beq dns dns
    then Assoc.unless (expired 12) (some reading)
    else lookup 12 dns held)
found_again = lookup-store 12 dns dns reading held held-IsValid

abbrev one_arrived : Callers
one_arrived = record idle { arrived = dns ∷ [] }

abbrev one_running : Callers
one_running = record { flights = (enter dns idle.flights).0; arrived = []; running = dns ∷ [] }

one_running-Reach : Reach 1 idle one_running
unfolding admit
one_running-Reach = next (next here (arrive dns refl (omega arith) refl)) (lead dns [] [] refl refl)

admit-Reach_example :
    (admit dns one_running.flights ≡ true)
    ↔ ((count dns one_running.running < 2) × (length one_running.running < 64))
admit-Reach_example = admit-Reach dns one_running-Reach
