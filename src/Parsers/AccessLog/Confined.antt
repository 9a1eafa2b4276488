-- ===== src/Parsers/AccessLog/Confined.antt =====
-- Which files a reply of daemon/internal/helper/ops/nginx_apache.go depends on, and that its counts are
-- there exactly where its coverage says so.
use host_health_mcp.Base.{
  ℕ, ◌≡◌, ◌≢◌, refl, sym, ap, ◌∙◌, Bytes, codes, Option, none, some, List, [], ◌∷◌, ◌++◌, inl, inr,
  Bool-cases,
}
use host_health_mcp.Base.Result.{Result, ok, err}
use host_health_mcp.Helper.Deadline.{ℤ, pos, negsuc}
use host_health_mcp.Parsers.Int64.{ltb_ℤ}
use host_health_mcp.Parsers.AccessLog.{cutoff_of, parse_access_log_tail}
use host_health_mcp.Parsers.AccessLog.Read.{
  LogFile, TailError, check_access_log_path, read_access_log_tail,
}
use host_health_mcp.Parsers.AccessLog.Reply.{
  Param, Server, nginx, apache, no_server, Coverage, full, partial, unavailable, unset,
  NginxApacheStatus, ProcEntry, World, detect_server, new_status, fail_with, after_cap, with_cap,
  error_text, window_of, at_least_zero, classify, of_tail, checked, at_path, for_server, with_param,
  decoded, no_param, nginx_apache_status,
}

-- Counts with a coverage that says that they were measured; without, a reason and a window of 0.
abbrev Told : Coverage → NginxApacheStatus → Type 0
Told full out = (n4 : ℕ) × (n5 : ℕ) × (out.recent_4xx ≡ some n4) × (out.recent_5xx ≡ some n5)
Told partial out =
    (n4 : ℕ) × (n5 : ℕ) × (minutes : ℕ) × (out.recent_4xx ≡ some n4)
    × (out.recent_5xx ≡ some n5)
    × (out.recent_window_minutes ≡ pos minutes)
Told unavailable out =
    (out.recent_4xx ≡ none)
    × (out.recent_5xx ≡ none)
    × (out.recent_window_minutes ≡ pos 0)
    × (out.warning ≢ [])
Told unset out = ⊥

abbrev pub IsTold : NginxApacheStatus → Type 0
IsTold out = Told out.recent_coverage out

-- A reply without counts as yet.
abbrev Fresh : NginxApacheStatus → Type 0
Fresh out = (out.recent_4xx ≡ none) × (out.recent_5xx ≡ none) × (out.recent_window_minutes ≡ pos 0)

append-ne-nil : (c : ℕ) (cs t : Bytes) → (c ∷ cs) ++ t ≢ []
append-ne-nil c cs t e = cc

fail_with-IsTold :
    (text : Bytes) (out : NginxApacheStatus) → Fresh out → text ≢ [] → IsTold (fail_with text out)
fail_with-IsTold text out (h4, h5, h) ne = (h4, h5, h, ne)

after_cap-ne-nil : (cap warning : Bytes) → warning ≢ [] → after_cap cap warning ≢ []
after_cap-ne-nil [] warning h e = h e
after_cap-ne-nil (c ∷ cs) [] h e = cc
after_cap-ne-nil (c ∷ cs) (x ∷ xs) h e = cc

with_cap-Told :
    (cap : Bytes) (k : Coverage) (out : NginxApacheStatus) → Told k out → Told k (with_cap cap out)
with_cap-Told cap full out h = h
with_cap-Told cap partial out h = h
with_cap-Told cap unavailable out (h4, h5, h, ne) = (h4, h5, h, after_cap-ne-nil cap out.warning ne)
with_cap-Told cap unset out h = h

module _ (w : World) where
  classify-IsTold :
      (p : Param) (out : NginxApacheStatus) (o : Option (ℕ × ℕ × ℤ))
      → Fresh out
      → IsTold (classify w p out o)
  unfolding classify
  classify-IsTold p out none (h4, h5, h) = (h4, h5, h, λ e. cc)
  classify-IsTold p out (some (r4, r5, oldest)) h =
      elim (Bool-cases (ltb_ℤ (cutoff_of w.now (window_of p)) oldest)) [
        | inl short ↦ rw short (
          r4,
          r5,
          minutes (w.minutes_between w.now oldest),
          refl,
          refl,
          minutes_lem (w.minutes_between w.now oldest),
        )
        | inr long ↦ rw long (r4, r5, refl, refl)
      ]
    where
      minutes : ℤ → ℕ
      minutes (pos n) = n
      minutes (negsuc n) = 0

      minutes_lem : (z : ℤ) → at_least_zero z ≡ pos (minutes z)
      minutes_lem (pos n) = refl
      minutes_lem (negsuc n) = refl

  of_tail-IsTold :
      (p : Param) (cap : Bytes) (out : NginxApacheStatus) (t : Result TailError Bytes)
      → Fresh out
      → IsTold (of_tail w p cap out t)
  of_tail-IsTold p cap out (err e) h =
      let text = codes "access_log_path: " ++ error_text w e in
      with_cap-Told cap unavailable (fail_with text out) (fail_with-IsTold text out h (λ e. cc))
  of_tail-IsTold p cap out (ok tail) h =
      let out' =
        classify w p out (parse_access_log_tail w.parse_time w.scan tail w.now (window_of p)) in
      with_cap-Told cap out'.recent_coverage out' (classify-IsTold p out _ h)

  module _ (open_log : Bytes → Result Bytes LogFile) where
    checked-IsTold :
        (p : Param) (cap : Bytes) (out : NginxApacheStatus) (e : Option TailError)
        → Fresh out
        → IsTold (checked w open_log p cap out e)
    checked-IsTold p cap out (some e) h = fail_with-IsTold _ out h (λ e. cc)
    checked-IsTold p cap out none h = of_tail-IsTold p cap out _ h

    at_path-IsTold :
        (p : Param) (cap : Bytes) (out : NginxApacheStatus) (path : Bytes)
        → Fresh out
        → IsTold (at_path w open_log p cap out path)
    at_path-IsTold p cap out [] h = fail_with-IsTold _ out h (λ e. cc)
    at_path-IsTold p cap out (c ∷ cs) h = checked-IsTold p cap out _ h

    for_server-IsTold :
        (s : Server) (p : Param) (cap : Bytes) (out : NginxApacheStatus)
        → Fresh out
        → IsTold (for_server w open_log s p cap out)
    for_server-IsTold no_server p cap out h = fail_with-IsTold _ out h (λ e. cc)
    for_server-IsTold nginx p cap out h = at_path-IsTold p cap out p.access_log_path h
    for_server-IsTold apache p cap out h = at_path-IsTold p cap out p.access_log_path h

    with_param-IsTold :
        (p : Param) (out : NginxApacheStatus) → Fresh out → IsTold (with_param w open_log p out)
    unfolding with_param
    with_param-IsTold p out h = for_server-IsTold out.server _ _ out h

    new_status-Fresh : (s : Server × ℕ × ℕ) → Fresh (new_status s)
    unfolding new_status
    new_status-Fresh s = (refl, refl, refl)

    -- Every reply has a coverage; with full or partial coverage both counts are there, with a partial one
    -- over a window that is not negative, and without coverage neither count is, the window is 0 and a
    -- warning says why.
    pub nginx_apache_status-IsTold :
        (unmarshal : Bytes → Result Bytes Param) (proc : Option (List ProcEntry)) (param : Bytes)
        → IsTold (nginx_apache_status w open_log unmarshal proc param)
    unfolding nginx_apache_status
    nginx_apache_status-IsTold unmarshal proc [] =
        with_param-IsTold _ _ (new_status-Fresh (detect_server proc))
    nginx_apache_status-IsTold unmarshal proc (c ∷ cs) = by_param (unmarshal (c ∷ cs))
      where
        by_param :
            (r : Result Bytes Param)
            → IsTold (decoded w open_log (new_status (detect_server proc)) r)
        by_param (err e) =
            fail_with-IsTold (codes "param: " ++ e) (new_status (detect_server proc))
              (new_status-Fresh (detect_server proc)) (λ e. cc)
        by_param (ok p) = with_param-IsTold p _ (new_status-Fresh (detect_server proc))

  module _ (open_log open_log' : Bytes → Result Bytes LogFile)
      (alike : (path : Bytes)
        → check_access_log_path w.clean w.prefixes path ≡ none
        → open_log path ≡ open_log' path) where
    at_path-alike :
        (p : Param) (cap : Bytes) (out : NginxApacheStatus) (path : Bytes)
        → p.access_log_path ≡ path
        → at_path w open_log p cap out path ≡ at_path w open_log' p cap out path
    at_path-alike p cap out [] e = refl
    at_path-alike p cap out (c ∷ cs) e =
        by_check (check_access_log_path w.clean w.prefixes (c ∷ cs)) refl
      where
        by_check :
            (o : Option TailError)
            → check_access_log_path w.clean w.prefixes (c ∷ cs) ≡ o
            → checked w open_log p cap out o ≡ checked w open_log' p cap out o
        by_check (some e) h = refl
        by_check none h =
            ap (λ f. of_tail w p cap out (read_access_log_tail f p.tail_bytes))
              (ap open_log e ∙ alike (c ∷ cs) h ∙ ap open_log' (sym e))

    for_server-alike :
        (s : Server) (p : Param) (cap : Bytes) (out : NginxApacheStatus)
        → for_server w open_log s p cap out ≡ for_server w open_log' s p cap out
    for_server-alike no_server p cap out = refl
    for_server-alike nginx p cap out = at_path-alike p cap out p.access_log_path refl
    for_server-alike apache p cap out = at_path-alike p cap out p.access_log_path refl

    with_param-alike :
        (p : Param) (out : NginxApacheStatus)
        → with_param w open_log p out ≡ with_param w open_log' p out
    unfolding with_param
    with_param-alike p out = for_server-alike out.server _ _ out

    -- Two file systems that differ only in files whose paths the check refuses give the same reply to
    -- every request.
    pub nginx_apache_status-alike :
        (unmarshal : Bytes → Result Bytes Param) (proc : Option (List ProcEntry)) (param : Bytes)
        → nginx_apache_status w open_log unmarshal proc param
          ≡ nginx_apache_status w open_log' unmarshal proc param
    unfolding nginx_apache_status
    nginx_apache_status-alike unmarshal proc [] =
        with_param-alike no_param (new_status (detect_server proc))
    nginx_apache_status-alike unmarshal proc (c ∷ cs) = by_param (unmarshal (c ∷ cs))
      where
        by_param :
            (r : Result Bytes Param)
            → decoded w open_log (new_status (detect_server proc)) r
              ≡ decoded w open_log' (new_status (detect_server proc)) r
        by_param (err e) = refl
        by_param (ok p) = with_param-alike p (new_status (detect_server proc))
