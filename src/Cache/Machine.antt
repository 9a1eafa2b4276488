-- ===== src/Cache/Machine.antt =====
-- The goroutines of `Cache.Do` in daemon/internal/daemon/cache/cache.go as a step relation.
-- The singleflight group is a library: whether an admitted caller leads or joins is the
-- environment's choice here, so what holds of every run holds whatever the group does.
use host_health_mcp.Base.{
  ℕ, ◌+◌, ◌≤◌, ◌<◌, ◌≡◌, ◌↔◌, ap, ◌∙◌, Bytes, true, List, [], ◌∷◌, ◌++◌, arith, length, text_eq_iff,
}
use host_health_mcp.Cache.Counts.{count, count-le-length, count-middle, length-middle}
use host_health_mcp.Cache.Flights.{Flights, none_running, admit, enter, leave}

-- `arrived` holds the callers between `admit` and the group's decision, `running` the invocations
-- that have entered and not left.
pub record Callers : Type 0 where
  pub flights : Flights
  pub arrived : List Bytes
  pub running : List Bytes

abbrev pub idle : Callers
idle = record { flights = none_running; arrived = []; running = [] }

-- One step, with at most `n` callers at once between the check and the group's decision.
pub data Step (n : ℕ) (s : Callers) (t : Callers) : Type 0 where
  arrive :
      (k : Bytes)
      → admit k s.flights ≡ true
      → length s.arrived < n
      → t ≡ record s { arrived = k ∷ s.arrived }
      → Step n s t
  lead :
      (k : Bytes) (before after : List Bytes)
      → s.arrived ≡ before ++ (k ∷ after)
      → t ≡ record {
        flights = (enter k s.flights).0;
        arrived = before ++ after;
        running = k ∷ s.running;
      }
      → Step n s t
  join :
      (k : Bytes) (before after : List Bytes)
      → s.arrived ≡ before ++ (k ∷ after)
      → t ≡ record s { arrived = before ++ after }
      → Step n s t
  -- returned, or panicked: `leave` is deferred
  finish :
      (k : Bytes) (before after : List Bytes)
      → s.running ≡ before ++ (k ∷ after)
      → t ≡ record s { flights = leave k s.flights; running = before ++ after }
      → Step n s t

pub data Reach (n : ℕ) (s : Callers) : Callers → Type 0 where
  here : Reach n s s
  next : {t u : Callers} → Reach n s t → Step n t u → Reach n s u

pub record IsValid (n : ℕ) (s : Callers) : Type 0 where
  pub per_key : (k : Bytes) → s.flights.in_flight k ≡ count k s.running
  pub in_total : s.flights.in_flight_total ≡ length s.running
  pub stalled_runs : (k : Bytes) → s.flights.stalled k ≡ true → 1 ≤ count k s.running
  pub full_stalled : (k : Bytes) → 2 ≤ count k s.running → s.flights.stalled k ≡ true
  pub key_room : (k : Bytes) → count k s.running + count k s.arrived ≤ 1 + n
  pub total_room : length s.running + length s.arrived ≤ 63 + n

arrive-IsValid :
    (n : ℕ) (s : Callers) (k : Bytes)
    → admit k s.flights ≡ true
    → length s.arrived < n
    → ((j : Bytes) → count j s.arrived ≤ length s.arrived)
    → IsValid n s
    → IsValid n (record s { arrived = k ∷ s.arrived })
unfolding admit
arrive-IsValid n s k a h cl v = record {
  per_key = v.per_key;
  in_total = v.in_total;
  stalled_runs = v.stalled_runs;
  full_stalled = v.full_stalled;
  key_room = λ j. ground (arith, v.key_room j, cl j, text_eq_iff k j, v.per_key k);
  total_room = ground (arith, v.in_total);
}

lead-IsValid :
    (n : ℕ) (s : Callers) (k : Bytes) (before after : List Bytes)
    → s.arrived ≡ before ++ (k ∷ after)
    → IsValid n s
    → IsValid n (record {
      flights = (enter k s.flights).0;
      arrived = before ++ after;
      running = k ∷ s.running;
    })
unfolding enter
lead-IsValid n s k b a e v = record {
  per_key = λ j. ground (arith, v.per_key j, v.per_key k, text_eq_iff k j);
  in_total = ground (arith, v.in_total);
  stalled_runs = λ j. ground (arith, v.stalled_runs j, v.per_key k, text_eq_iff k j);
  full_stalled = λ j. ground (arith, v.full_stalled j, v.per_key k, text_eq_iff k j);
  key_room = λ j. omega (arith, v.key_room j, count-middle j k b a, ap (count j) e);
  total_room = omega (arith, v.total_room, length-middle k b a, ap length e);
}

finish-IsValid :
    (n : ℕ) (s : Callers) (k : Bytes) (before after : List Bytes)
    → s.running ≡ before ++ (k ∷ after)
    → IsValid n s
    → IsValid n (record s { flights = leave k s.flights; running = before ++ after })
unfolding leave
finish-IsValid n s k b a e v =
    let at = λ (j : Bytes). ap (count j) e ∙ count-middle j k b a in
    let len = ap length e ∙ length-middle k b a in
    record {
      per_key = λ j. ground (arith, at j, at k, v.per_key j, v.per_key k, text_eq_iff k j);
      in_total = ground (arith, len, v.in_total);
      stalled_runs =
          λ j. ground (arith, at j, at k, v.stalled_runs j, v.per_key k, text_eq_iff k j);
      full_stalled =
          λ j. ground (arith, at j, at k, v.full_stalled j, v.per_key k, text_eq_iff k j);
      key_room = λ j. omega (arith, at j, v.key_room j);
      total_room = omega (arith, len, v.total_room);
    }

join-IsValid :
    (n : ℕ) (s : Callers) (k : Bytes) (before after : List Bytes)
    → s.arrived ≡ before ++ (k ∷ after)
    → IsValid n s
    → IsValid n (record s { arrived = before ++ after })
join-IsValid n s k b a e v = record {
  per_key = v.per_key;
  in_total = v.in_total;
  stalled_runs = v.stalled_runs;
  full_stalled = v.full_stalled;
  key_room = λ j. omega (arith, v.key_room j, count-middle j k b a, ap (count j) e);
  total_room = omega (arith, v.total_room, length-middle k b a, ap length e);
}

Step-IsValid : {n : ℕ} {s t : Callers} → Step n s t → IsValid n s → IsValid n t
Step-IsValid {n} {s} (arrive k a h e) v =
    rw e (arrive-IsValid n s k a h (λ j. count-le-length j s.arrived) v)
Step-IsValid {n} {s} (lead k b a p e) v = rw e (lead-IsValid n s k b a p v)
Step-IsValid {n} {s} (join k b a p e) v = rw e (join-IsValid n s k b a p v)
Step-IsValid {n} {s} (finish k b a p e) v = rw e (finish-IsValid n s k b a p v)

IsValid-idle : (n : ℕ) → IsValid n idle
IsValid-idle n = ground arith

pub Reach-IsValid : {n : ℕ} {s : Callers} → Reach n idle s → IsValid n s
Reach-IsValid {n} here = IsValid-idle n
Reach-IsValid (next r st) = Step-IsValid st (Reach-IsValid r)

-- In every such state a call for a key is admitted exactly when fewer than two of its invocations
-- and fewer than 64 in all have not returned; so it is admitted again once they have.
pub admit-Reach :
    {n : ℕ} {s : Callers} (k : Bytes)
    → Reach n idle s
    → (admit k s.flights ≡ true) ↔ ((count k s.running < 2) × (length s.running < 64))
unfolding admit
admit-Reach {s} k r = let v = Reach-IsValid r in ground (arith, v.per_key k, v.in_total)
