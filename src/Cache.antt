-- ===== src/Cache.antt =====
-- daemon/internal/daemon/cache/cache.go: the map of `Cache` with `Lookup`, `Store` and `Sweep`,
-- and `Do`. The counts of running invocations are in Flights, and the goroutines of `Do` over them
-- in Machine. Each map operation holds `c.mu`; one clock reading stands for the `time.Since` calls
-- that an operation makes under the lock.
pub mod Flights
pub mod Counts
pub mod Machine
pub mod Entries
mod Examples
use host_health_mcp.Base.{
  ℕ, ◌-◌, String, Bytes, Bool, true, false, not, ◌&&◌, Option, none, some, List, [], ◌∷◌, ◌++◌, ltb,
  leb, length, if◌then◌else◌,
}
use host_health_mcp.Base.Eq.{bytes_eq}
use host_health_mcp.Base.Assoc

pub record Entry : Type 0 where
  pub payload : Bytes
  pub warnings : List Bytes
  pub builtat : ℕ
  pub ttl : ℕ

-- `time.Since(e.Builtat)`, in nanoseconds
abbrev pub age : ℕ → Entry → ℕ
age now e = now - e.builtat

abbrev pub expired : ℕ → Entry → Bool
expired now e = ltb e.ttl (age now e)

abbrev pub max_entries : ℕ
max_entries = 4096

-- `Key`, for any SHA-256 in hexadecimal and any canonical form of JSON.
unfoldable pub key : (Bytes → Bytes) → (Bytes → Bytes) → Bytes → Bytes → Bytes
key sha256_hex canonicalise_json tool args =
    tool ++ (b':' ∷ sha256_hex (tool ++ (0 ∷ canonicalise_json args)))

-- `c.m`
abbrev pub Entries : Type 0
Entries = List (Bytes × Entry)

abbrev pub new : Entries
new = []

unfoldable pub lookup : ℕ → Bytes → Entries → Option Entry
lookup now key m = elim (Assoc.lookup key m) [
  | none ↦ none
  | some e ↦ if expired now e then none else some e
]

unfoldable pub sweep_locked : ℕ → Entries → Entries
sweep_locked now m = Assoc.sweep (expired now) m

unfoldable pub store : ℕ → Bytes → Entry → Entries → Entries
store now key e m =
    if not (Assoc.has_key key m) && leb max_entries (length m)
    then (let swept = sweep_locked now m in
        if leb max_entries (length swept) then swept else Assoc.insert key e swept)
    else Assoc.insert key e m

unfoldable pub sweep : ℕ → Entries → Entries
sweep now m = sweep_locked now m
