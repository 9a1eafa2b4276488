-- ===== src/Parsers/AccessLog/Request.antt =====
-- daemon/internal/daemon/tools/workload/nginx_apache.go: what the daemon asks the helper for, from the
-- plugin's keys of the manifest, and what it makes of the answer.
-- `cfg` is the map of the keys, `marshal` json.Marshal of the parameter, and `call` CallJSON of the op.
use host_health_mcp.Base.{
  ℕ, zero, suc, ◌-◌, ◌*◌, ◌≤◌, ◌≡◌, refl, ap, ◌∙◌, Bytes, codes, Option, none, some, List, [], ◌∷◌,
  ◌&&◌, arith, ltb, leb, if◌then◌else◌,
}
use host_health_mcp.Base.Result.{Result, ok, err, ◌>>=◌, bind-eq-ok}
use host_health_mcp.Helper.Deadline.{ℤ, pos, negsuc}
use host_health_mcp.Parsers.Int64.{wrap64, wrap64_small, times, ltb_ℤ-pos, ltb-false}
use host_health_mcp.Parsers.AccessLog.Reply.{
  Param, NginxApacheStatus, World, max_tail_bytes, minute, or_default, default_window_min,
  default_tail_bytes, with_defaults, window_of, cap_warning,
}

pub data RequestError (E : Type 0) : Type 0 where
  bad_window : Bytes → RequestError E
  bad_tail : Bytes → RequestError E
  big_tail : ℤ → RequestError E
  not_called : E → RequestError E

abbrev pub warnings_of : Bytes → List Bytes
warnings_of [] = []
warnings_of (c ∷ cs) = (c ∷ cs) ∷ []

defaulted :
    (n d k : ℕ)
    → n ≤ k
    → 1 ≤ d
    → d ≤ k
    → (m : ℕ) × (or_default (pos n) d ≡ pos (suc m)) × (suc m ≤ k)
defaulted zero d k h lo hi = (d - 1, ground (arith, lo), omega (arith, lo, hi))
defaulted (suc n) d k h lo hi = (n, ground arith, h)

times-pos : (m : ℕ) → times (pos m) minute ≡ pos (m * minute)
unfolding times
times-pos m = ground arith

-- What the helper makes of a request with such numbers.
abbrev Served : World → Param → Type 0
Served w p =
    (tail minutes : ℕ) × ((with_defaults p).tail_bytes ≡ pos (suc tail))
    × (cap_warning w (pos (suc tail)) ≡ [])
    × ((with_defaults p).window_min ≡ pos minutes)
    × (1 ≤ minutes)
    × (minutes ≤ 1440)
    × (window_of (with_defaults p) ≡ pos (minutes * minute))

served :
    (w : World) (p : Param) (m n : ℕ)
    → p.window_min ≡ pos m
    → p.tail_bytes ≡ pos n
    → m ≤ 1440
    → n ≤ max_tail_bytes
    → Served w p
unfolding with_defaults window_of cap_warning
served w p m n em en lm ln =
    let (k, ek, lk) = defaulted m default_window_min 1440 lm (omega arith) (omega arith) in
    let (t, et, lt) =
      defaulted n default_tail_bytes max_tail_bytes ln (omega arith) (omega arith) in
    let window = ap (λ z. or_default z default_window_min) em ∙ ek in
    (
      t,
      suc k,
      ap (λ z. or_default z default_tail_bytes) en ∙ et,
      rw (ltb_ℤ-pos, ltb-false max_tail_bytes (suc t) lt) refl,
      window,
      omega arith,
      lk,
      ap (λ z. wrap64 (times z minute)) window
          ∙ ap wrap64 (times-pos (suc k))
          ∙ wrap64_small (suc k * minute) (omega (arith, lk)),
    )

module _ {E : Type 0} (atoi : Bytes → Option ℤ) where
  abbrev in_day : Bytes → Option ℤ → Result (RequestError E) ℤ
  in_day s none = err (bad_window s)
  in_day s (some (negsuc n)) = err (bad_window s)
  in_day s (some (pos n)) = if leb 1 n && leb n 1440 then ok (pos n) else err (bad_window s)

  abbrev in_tail : Bytes → Option ℤ → Result (RequestError E) ℤ
  in_tail s none = err (bad_tail s)
  in_tail s (some (negsuc n)) = err (bad_tail s)
  in_tail s (some (pos n)) = if ltb max_tail_bytes n then err (big_tail (pos n)) else ok (pos n)

  -- An absent key leaves 0.
  unfoldable pub window_param : Bytes → Result (RequestError E) ℤ
  window_param [] = ok (pos 0)
  window_param (c ∷ cs) = in_day (c ∷ cs) (atoi (c ∷ cs))

  unfoldable pub tail_param : Bytes → Result (RequestError E) ℤ
  tail_param [] = ok (pos 0)
  tail_param (c ∷ cs) = in_tail (c ∷ cs) (atoi (c ∷ cs))

  unfoldable pub request_param : (Bytes → Bytes) → Result (RequestError E) Param
  request_param cfg = do
    window ← window_param (cfg (codes "access_log_window_minutes"))
    tail ← tail_param (cfg (codes "access_log_tail_bytes"))
    ok (record {
      access_log_path = cfg (codes "access_log_path");
      window_min = window;
      tail_bytes = tail;
    })

  abbrev answered :
      Result E NginxApacheStatus → Result (RequestError E) (NginxApacheStatus × List Bytes)
  answered (err e) = err (not_called e)
  answered (ok st) = ok (record st { warning = [] }, warnings_of st.warning)

  -- `Collect`: the values of the reply, and the warnings of the envelope.
  unfoldable pub collect :
      (Param → Bytes)
      → (Bytes → Result E NginxApacheStatus)
      → (Bytes → Bytes)
      → Result (RequestError E) (NginxApacheStatus × List Bytes)
  collect marshal call cfg = do p ← request_param cfg; answered (call (marshal p))

  window_param_bounds :
      (s : Bytes) (z : ℤ) → window_param s ≡ ok z → (n : ℕ) × (z ≡ pos n) × (n ≤ 1440)
  unfolding window_param
  window_param_bounds [] z h = (0, ground (arith, h), omega arith)
  window_param_bounds (c ∷ cs) z h = of_number (atoi (c ∷ cs)) h
    where
      of_number : (o : Option ℤ) → in_day (c ∷ cs) o ≡ ok z → (n : ℕ) × (z ≡ pos n) × (n ≤ 1440)
      of_number none h = absurd (ground (arith, h))
      of_number (some (negsuc n)) h = absurd (ground (arith, h))
      of_number (some (pos n)) h = (n, ground (arith, h), ground (arith, h))

  tail_param_bounds :
      (s : Bytes) (z : ℤ) → tail_param s ≡ ok z → (n : ℕ) × (z ≡ pos n) × (n ≤ max_tail_bytes)
  unfolding tail_param
  tail_param_bounds [] z h = (0, ground (arith, h), omega arith)
  tail_param_bounds (c ∷ cs) z h = of_number (atoi (c ∷ cs)) h
    where
      of_number :
          (o : Option ℤ) → in_tail (c ∷ cs) o ≡ ok z → (n : ℕ) × (z ≡ pos n) × (n ≤ max_tail_bytes)
      of_number none h = absurd (ground (arith, h))
      of_number (some (negsuc n)) h = absurd (ground (arith, h))
      of_number (some (pos n)) h = (n, ground (arith, h), ground (arith, h))

  -- The helper neither caps nor refuses the budget of a request that the daemon makes, which is from one
  -- byte to the greatest; the window is from a minute to a day, and its product with the nanoseconds of
  -- a minute is not wrapped.
  pub request_param_bounds :
      (w : World) (cfg : Bytes → Bytes) (p : Param) → request_param cfg ≡ ok p → Served w p
  unfolding request_param
  request_param_bounds w cfg p h =
      let (window, hw, h') =
        bind-eq-ok (window_param (cfg (codes "access_log_window_minutes"))) _ h in
      let (tail, ht, h'') = bind-eq-ok (tail_param (cfg (codes "access_log_tail_bytes"))) _ h' in
      let (m, em, lm) = window_param_bounds (cfg (codes "access_log_window_minutes")) window hw in
      let (n, en, ln) = tail_param_bounds (cfg (codes "access_log_tail_bytes")) tail ht in
      served w p m n (ground (arith, h'', em)) (ground (arith, h'', en)) lm ln
