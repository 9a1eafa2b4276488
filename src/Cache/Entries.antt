-- ===== src/Cache/Entries.antt =====
-- The entry map of daemon/internal/daemon/cache/cache.go: its bound, and what `Store` and `Sweep`
-- change for a reader.
use host_health_mcp.Base.{
  ℕ, ◌≤◌, ◌≡◌, Bytes, Bool, true, not, ◌&&◌, some, arith, leb, length, if◌then◌else◌,
}
use host_health_mcp.Base.Eq.{bytes_eq}
use host_health_mcp.Base.Assoc
use host_health_mcp.Cache.{Entry, Entries, expired, max_entries, lookup, sweep_locked, store, sweep}

pub record IsValid (m : Entries) : Type 0 where
  pub bounded : length m ≤ max_entries
  pub distinct : Assoc.Distinct m

-- The map never outgrows `MaxEntries` and holds each key once, whatever is stored.
pub store-IsValid :
    (now : ℕ) (k : Bytes) (e : Entry) (m : Entries) → IsValid m → IsValid (store now k e m)
unfolding store sweep_locked
store-IsValid now k e m v =
    let swept = Assoc.sweep (expired now) m in
    let d = Assoc.Distinct-sweep (expired now) m v.distinct in
    ground (
      arith,
      d,
      Assoc.length-sweep (expired now) m,
      Assoc.length-insert k e m,
      Assoc.length-insert k e swept,
      Assoc.Distinct-insert k e m v.distinct,
      Assoc.Distinct-insert k e swept d,
    )

-- A sweep keeps it so.
pub sweep-IsValid : (now : ℕ) (m : Entries) → IsValid m → IsValid (sweep now m)
unfolding sweep sweep_locked
sweep-IsValid now m v = record {
  bounded = omega (arith, Assoc.length-sweep (expired now) m, v.bounded);
  distinct = Assoc.Distinct-sweep (expired now) m v.distinct;
}

-- No reader at that clock reading can tell that a sweep ran.
pub lookup-sweep :
    (now : ℕ) (k : Bytes) (m : Entries) → IsValid m → lookup now k (sweep now m) ≡ lookup now k m
unfolding lookup sweep sweep_locked
lookup-sweep now k m v = ground (arith, Assoc.lookup-sweep (expired now) k m v.distinct)

-- Whether `Store` writes: there is room, the key is there, or a sweep makes room.
unfoldable pub accepts : ℕ → Bytes → Entries → Bool
accepts now k m =
    if Assoc.has_key k m
    then true
    else if leb max_entries (length m)
    then not (leb max_entries (length (sweep_locked now m)))
    else true

-- After `Store` a lookup of its key finds the new entry, unless it is expired already or there was
-- no room for it; every other key, and the key itself when there was no room, reads as before.
pub lookup-store :
    (now : ℕ) (k j : Bytes) (e : Entry) (m : Entries)
    → IsValid m
    → lookup now j (store now k e m) ≡ (
        if accepts now k m && bytes_eq.beq k j
        then Assoc.unless (expired now) (some e)
        else lookup now j m)
unfolding lookup store accepts sweep_locked
lookup-store now k j e m v = ground (
  arith,
  Assoc.lookup-sweep (expired now) j m v.distinct,
  Assoc.lookup-insert k j e m,
  Assoc.lookup-insert k j e (Assoc.sweep (expired now) m),
)
