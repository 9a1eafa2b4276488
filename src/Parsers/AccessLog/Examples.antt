-- ===== src/Parsers/AccessLog/Examples.antt =====
-- Small access logs.
use host_health_mcp.Base.{
  ◌≤◌, ◌<◌, ◌-◌, ◌≡◌, refl, sym, ap, Bytes, codes, true, Option, none, some, List, [], ◌∷◌, ◌++◌,
  ◌⊎◌, length, take, drop, arith,
}
use host_health_mcp.Base.Result.{Result, ok, err}
use host_health_mcp.Helper.Deadline.{ℤ, pos}
use host_health_mcp.Parsers.Int64.{pos_part}
use host_health_mcp.Parsers.AccessLog.Read.{
  LogFile, TailError, check_access_log_path, read_regular, default_prefixes,
}
use host_health_mcp.Parsers.AccessLog.Suffix.{WholeLines, read_regular-WholeLines}
use host_health_mcp.Parsers.AccessLog.Reply.{
  Param, NginxApacheStatus, World, new_status, nginx, nginx_apache_status,
}
use host_health_mcp.Parsers.AccessLog.Confined.{nginx_apache_status-alike}
use host_health_mcp.Parsers.AccessLog.LogLine.{log_line}

-- A minute of nanoseconds for each letter of the stamp.
abbrev letters : Bytes → Option ℤ
letters s = some (pos (length s))

abbrev lines : List Bytes
lines =
    log_line (codes "::1 ") (codes "aaaa") (codes " ") (codes "GET /") 404 (codes "9")
    ∷ log_line (codes "::1 ") (codes "aa") (codes " ") (codes "GET /") 502 (codes "9")
    ∷ log_line (codes "::1 ") (codes "aaaa") (codes " ") (codes "GET /") 200 (codes "9")
    ∷ []

abbrev world : World
world = record {
  clean = λ p. p;
  prefixes = default_prefixes;
  scan = λ _. (lines, none);
  parse_time = letters;
  int_text = λ _. codes "n";
  now = pos 60_000_000_003;
  minutes_between = λ _ _. pos 0;
}

abbrev one_minute : Param
one_minute = record {
  access_log_path = codes "/var/log/a";
  window_min = pos 1;
  tail_bytes = pos 4096;
}

abbrev out : NginxApacheStatus
out = new_status (nginx, 3, 0)

abbrev content : Bytes
content = codes "old" ++ (b'\n' ∷ codes "new")

abbrev file : LogFile
file = record {
  stat_error = none;
  regular = true;
  size = 7;
  seek_error = λ _. none;
  read_full = λ off want. (take want (drop (pos_part off) content), none);
}

read_regular-WholeLines_example :
    (r : Bytes) × (read_regular file (pos 5) ≡ ok r)
    × (((length content ≤ 5) × (r ≡ content))
        ⊎ ((5 < length content) × WholeLines (drop (length content - 5) content) r))
read_regular-WholeLines_example =
    read_regular-WholeLines file content refl refl (omega arith) (λ off. refl) (λ off want h. refl)
      4

abbrev guarded : Option TailError → Result Bytes LogFile
guarded none = ok file
guarded (some e) = err (codes "permission denied")

abbrev open_all : Bytes → Result Bytes LogFile
open_all path = ok file

abbrev open_logs : Bytes → Result Bytes LogFile
open_logs path = guarded (check_access_log_path world.clean world.prefixes path)

abbrev unmarshal : Bytes → Result Bytes Param
unmarshal path = ok (record one_minute { access_log_path = path })

nginx_apache_status-alike_example :
    nginx_apache_status world open_all unmarshal none (codes "/etc/shadow")
    ≡ nginx_apache_status world open_logs unmarshal none (codes "/etc/shadow")
nginx_apache_status-alike_example =
    nginx_apache_status-alike world open_all open_logs (λ path h. sym (ap guarded h)) unmarshal none
      (codes "/etc/shadow")
