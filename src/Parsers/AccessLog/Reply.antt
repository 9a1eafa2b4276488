-- ===== src/Parsers/AccessLog/Reply.antt =====
-- `NginxApacheStatus` and `detectServer` of daemon/internal/helper/ops/nginx_apache.go.
-- What it takes from outside is a record: filepath.Clean, the scanner, time.Parse, strconv.Itoa, the
-- clock, and `minutes_between now t`, which is int(now.Sub(t).Minutes()).
use host_health_mcp.Base.{
  ℕ, suc, ◌-◌, Bytes, codes, text_eq, Bool, not, ◌&&◌, ◌||◌, Option, none, some, List, [], ◌∷◌,
  ◌++◌, ltb, if◌then◌else◌,
}
use host_health_mcp.Base.Result.{Result, ok, err}
use host_health_mcp.Helper.Deadline.{ℤ, pos, negsuc}
use host_health_mcp.Parsers.Int64.{ltb_ℤ, wrap64, times}
use host_health_mcp.Parsers.Scan.{Scan}
use host_health_mcp.Parsers.Postqueue.{is_size}
use host_health_mcp.Parsers.AccessLog.{cutoff_of, parse_access_log_tail}
use host_health_mcp.Parsers.AccessLog.Read.{
  LogFile, TailError, not_allowed, not_absolute, from_system, not_regular, tail_not_positive,
  check_access_log_path, read_access_log_tail,
}

pub record Param : Type 0 where
  pub access_log_path : Bytes
  pub window_min : ℤ
  pub tail_bytes : ℤ

pub data Server : Type 0 where
  nginx : Server
  apache : Server
  no_server : Server

pub data Coverage : Type 0 where
  full : Coverage
  partial : Coverage
  unavailable : Coverage
  -- The zero value, of a reply that is not finished.
  unset : Coverage

pub record NginxApacheStatus : Type 0 where
  pub server : Server
  pub worker_count : ℕ
  pub recent_4xx : Option ℕ
  pub recent_5xx : Option ℕ
  pub recent_window_minutes : ℤ
  pub recent_coverage : Coverage
  pub warning : Bytes

abbrev pub max_tail_bytes : ℕ
max_tail_bytes = 4_194_304

abbrev pub default_tail_bytes : ℕ
default_tail_bytes = 262_144

abbrev pub default_window_min : ℕ
default_window_min = 60

abbrev pub minute : ℕ
minute = 60_000_000_000

-- An entry of /proc, with its trimmed comm if that can be read.
pub record ProcEntry : Type 0 where
  pub is_dir : Bool
  pub name : Bytes
  pub comm : Option Bytes

abbrev is_httpd : Bytes → Bool
is_httpd comm = text_eq comm (codes "apache2") || text_eq comm (codes "httpd")

abbrev count_comm : Option Bytes → ℕ × ℕ → ℕ × ℕ
count_comm none n = n
count_comm (some comm) (n, a) =
    if text_eq comm (codes "nginx")
    then (suc n, a)
    else if is_httpd comm
    then (n, suc a)
    else (n, a)

unfoldable pub count_servers : List ProcEntry → ℕ × ℕ → ℕ × ℕ
count_servers [] n = n
count_servers (e ∷ es) n =
    count_servers es (if e.is_dir && is_size e.name then count_comm e.comm n else n)

abbrev server_of : ℕ × ℕ → Server × ℕ × ℕ
server_of (n, a) =
    if ltb 0 n then (nginx, n, a) else if ltb 0 a then (apache, n, a) else (no_server, 0, 0)

unfoldable pub detect_server : Option (List ProcEntry) → Server × ℕ × ℕ
detect_server none = (no_server, 0, 0)
detect_server (some es) = server_of (count_servers es (0, 0))

-- The number of processes less the master.
unfoldable pub new_status : Server × ℕ × ℕ → NginxApacheStatus
new_status (s, n, a) = record {
  server = s;
  worker_count = elim s [ nginx ↦ n - 1 | apache ↦ a - 1 | no_server ↦ 0 ];
  recent_4xx = none;
  recent_5xx = none;
  recent_window_minutes = pos 0;
  recent_coverage = unset;
  warning = [];
}

abbrev pub no_param : Param
no_param = record { access_log_path = []; window_min = pos 0; tail_bytes = pos 0 }

abbrev pub fail_with : Bytes → NginxApacheStatus → NginxApacheStatus
fail_with text out = record out { recent_coverage = unavailable; warning = text }

abbrev pub or_default : ℤ → ℕ → ℤ
or_default (pos n) d = if ltb 0 n then pos n else pos d
or_default (negsuc n) d = negsuc n

unfoldable pub with_defaults : Param → Param
with_defaults p = record p {
  window_min = or_default p.window_min default_window_min;
  tail_bytes = or_default p.tail_bytes default_tail_bytes;
}

abbrev pub after_cap : Bytes → Bytes → Bytes
after_cap [] warning = warning
after_cap (c ∷ cs) [] = c ∷ cs
after_cap (c ∷ cs) (w ∷ ws) = (c ∷ cs) ++ codes "; " ++ (w ∷ ws)

abbrev pub with_cap : Bytes → NginxApacheStatus → NginxApacheStatus
with_cap cap out = record out { warning = after_cap cap out.warning }

abbrev join_blank : List Bytes → Bytes
join_blank [] = []
join_blank (p ∷ []) = p
join_blank (p ∷ q ∷ ps) = p ++ codes " " ++ join_blank (q ∷ ps)

pub record World : Type 0 where
  pub clean : Bytes → Bytes
  pub prefixes : List Bytes
  pub scan : Scan
  pub parse_time : Bytes → Option ℤ
  pub int_text : ℤ → Bytes
  pub now : ℤ
  pub minutes_between : ℤ → ℤ → ℤ

unfoldable pub window_of : Param → ℤ
window_of p = wrap64 (times p.window_min minute)

abbrev pub at_least_zero : ℤ → ℤ
at_least_zero (pos n) = pos n
at_least_zero (negsuc n) = pos 0

module _ (w : World) where
  unfoldable pub error_text : TailError → Bytes
  error_text not_absolute = codes "access_log_path must be absolute"
  error_text (not_allowed path) =
      codes "access_log_path "
      ++ path
      ++ codes " is outside the permitted prefixes ["
      ++ join_blank w.prefixes
      ++ codes "]"
  error_text (from_system e) = e
  error_text not_regular = codes "not a regular file"
  error_text tail_not_positive = codes "access_log_tail_bytes must be positive"

  -- The `switch` over what the tail holds.
  unfoldable pub classify : Param → NginxApacheStatus → Option (ℕ × ℕ × ℤ) → NginxApacheStatus
  classify p out none = record out {
    recent_coverage = unavailable;
    warning = codes "no parseable timestamps in tail";
  }
  classify p out (some (r4, r5, oldest)) =
      if not (ltb_ℤ (cutoff_of w.now (window_of p)) oldest)
      then record out {
        recent_4xx = some r4;
        recent_5xx = some r5;
        recent_coverage = full;
        recent_window_minutes = p.window_min;
      }
      else record out {
        recent_4xx = some r4;
        recent_5xx = some r5;
        recent_coverage = partial;
        recent_window_minutes = at_least_zero (w.minutes_between w.now oldest);
      }

  abbrev pub of_tail :
      Param → Bytes → NginxApacheStatus → Result TailError Bytes → NginxApacheStatus
  of_tail p cap out (err e) =
      with_cap cap (fail_with (codes "access_log_path: " ++ error_text e) out)
  of_tail p cap out (ok tail) =
      with_cap cap
        (classify p out (parse_access_log_tail w.parse_time w.scan tail w.now (window_of p)))

  unfoldable pub cap_warning : ℤ → Bytes
  cap_warning tail =
      if ltb_ℤ (pos max_tail_bytes) tail
      then codes "access_log_tail_bytes capped: requested "
        ++ w.int_text tail
        ++ codes ", using "
        ++ w.int_text (pos max_tail_bytes)
      else []

  abbrev pub capped : ℤ → ℤ
  capped tail = if ltb_ℤ (pos max_tail_bytes) tail then pos max_tail_bytes else tail

  module _ (open_log : Bytes → Result Bytes LogFile) where
    abbrev pub checked : Param → Bytes → NginxApacheStatus → Option TailError → NginxApacheStatus
    checked p cap out (some e) = fail_with (codes "access_log_path: " ++ error_text e) out
    checked p cap out none =
        of_tail p cap out (read_access_log_tail (open_log p.access_log_path) p.tail_bytes)

    abbrev pub at_path : Param → Bytes → NginxApacheStatus → Bytes → NginxApacheStatus
    at_path p cap out [] = fail_with (codes "access_log_path not configured") out
    at_path p cap out (c ∷ cs) =
        checked p cap out (check_access_log_path w.clean w.prefixes (c ∷ cs))

    abbrev pub for_server : Server → Param → Bytes → NginxApacheStatus → NginxApacheStatus
    for_server no_server p cap out = fail_with (codes "no nginx/apache process detected") out
    for_server nginx p cap out = at_path p cap out p.access_log_path
    for_server apache p cap out = at_path p cap out p.access_log_path

    unfoldable pub with_param : Param → NginxApacheStatus → NginxApacheStatus
    with_param q out =
        let p = with_defaults q in
        for_server out.server (record p { tail_bytes = capped p.tail_bytes })
          (cap_warning p.tail_bytes) out

    abbrev pub decoded : NginxApacheStatus → Result Bytes Param → NginxApacheStatus
    decoded out (err e) = fail_with (codes "param: " ++ e) out
    decoded out (ok p) = with_param p out

    -- `unmarshal` is json.Unmarshal into an empty parameter.
    unfoldable pub nginx_apache_status :
        (Bytes → Result Bytes Param) → Option (List ProcEntry) → Bytes → NginxApacheStatus
    nginx_apache_status unmarshal proc [] = with_param no_param (new_status (detect_server proc))
    nginx_apache_status unmarshal proc (c ∷ cs) =
        decoded (new_status (detect_server proc)) (unmarshal (c ∷ cs))
