-- ===== src/HttpServer/Capped.antt =====
-- daemon/internal/daemon/httpserver/capped.go: the cap on open connections.
-- A connection is known by its place in the order of admission; its flag says whether it still
-- holds a place of `sem`, so that `once` is a test of the flag.
use host_health_mcp.Base.{
  ℕ, zero, suc, ◌-◌, ◌≤◌, ◌≡◌, refl, Bool, true, false, List, [], ◌∷◌, ◌++◌, ltb, if◌then◌else◌,
  arith,
}

pub record CappedListener : Type 0 where
  pub cap : ℕ
  pub sem : ℕ
  pub conns : List Bool
  pub turned_away : ℕ
  pub closed : Bool

unfoldable pub new_capped_listener : ℕ → CappedListener
new_capped_listener cap = record { cap = cap; sem = 0; conns = []; turned_away = 0; closed = false }

-- One turn of the loop of `Accept`, for a connection of the inner listener.
unfoldable pub accept : CappedListener → CappedListener
accept l =
    if ltb l.sem l.cap
    then record l { sem = suc l.sem; conns = l.conns ++ (true ∷ []) }
    else record l { turned_away = suc l.turned_away }

unfoldable pub holds : ℕ → List Bool → Bool
holds n [] = false
holds zero (c ∷ cs) = c
holds (suc n) (c ∷ cs) = holds n cs

unfoldable pub released : ℕ → List Bool → List Bool
released n [] = []
released zero (c ∷ cs) = false ∷ cs
released (suc n) (c ∷ cs) = c ∷ released n cs

-- `cappedConn.Close` of the n-th connection.
unfoldable pub close_conn : ℕ → CappedListener → CappedListener
close_conn n l =
    if holds n l.conns then record l { sem = l.sem - 1; conns = released n l.conns } else l

unfoldable pub close : CappedListener → CappedListener
close l = if l.closed then l else record l { closed = true }

pub data Event : Type 0 where
  accepts : Event
  closes : ℕ → Event
  shuts : Event

unfoldable pub run : List Event → CappedListener → CappedListener
run [] l = l
run (accepts ∷ es) l = run es (accept l)
run (closes n ∷ es) l = run es (close_conn n l)
run (shuts ∷ es) l = run es (close l)

-- The connections that hold a place.
unfoldable pub count_open : List Bool → ℕ
count_open [] = 0
count_open (true ∷ cs) = suc (count_open cs)
count_open (false ∷ cs) = count_open cs

pub record IsValid (l : CappedListener) : Type 0 where
  pub counted : l.sem ≡ count_open l.conns
  pub capped : l.sem ≤ l.cap

count_open-append : (cs : List Bool) → count_open (cs ++ (true ∷ [])) ≡ suc (count_open cs)
unfolding count_open
count_open-append [] = refl
count_open-append (true ∷ cs) = ground (arith, count_open-append cs)
count_open-append (false ∷ cs) = count_open-append cs

count_open-released :
    (n : ℕ) (cs : List Bool) → holds n cs ≡ true → suc (count_open (released n cs)) ≡ count_open cs
unfolding count_open released holds
count_open-released n [] h = cc
count_open-released zero (true ∷ cs) h = refl
count_open-released zero (false ∷ cs) h = cc
count_open-released (suc n) (true ∷ cs) h = ground (arith, count_open-released n cs h)
count_open-released (suc n) (false ∷ cs) h = count_open-released n cs h

accept-IsValid : (l : CappedListener) → IsValid l → IsValid (accept l)
unfolding accept
accept-IsValid l v = ground (arith, count_open-append l.conns, v.counted, v.capped)

close_conn-IsValid : (n : ℕ) (l : CappedListener) → IsValid l → IsValid (close_conn n l)
unfolding close_conn
close_conn-IsValid n l v = ground (arith, count_open-released n l.conns, v.counted, v.capped)

close-IsValid : (l : CappedListener) → IsValid l → IsValid (close l)
unfolding close
close-IsValid l v = ground (arith, v.counted, v.capped)

run-IsValid : (es : List Event) (l : CappedListener) → IsValid l → IsValid (run es l)
unfolding run
run-IsValid [] l v = v
run-IsValid (accepts ∷ es) l v = run-IsValid es (accept l) (accept-IsValid l v)
run-IsValid (closes n ∷ es) l v = run-IsValid es (close_conn n l) (close_conn-IsValid n l v)
run-IsValid (shuts ∷ es) l v = run-IsValid es (close l) (close-IsValid l v)

-- Whatever arrives and whatever is closed, also twice, the places taken are those of the
-- connections not closed, and at most the cap.
pub run-new-IsValid : (cap : ℕ) (es : List Event) → IsValid (run es (new_capped_listener cap))
unfolding new_capped_listener count_open
run-new-IsValid cap es =
    run-IsValid es (new_capped_listener cap) (record { counted = refl; capped = omega arith })
