-- ===== src/Parsers/AccessLog/Coverage.antt =====
-- What a reply of daemon/internal/helper/ops/nginx_apache.go says of a tail that was read, and what is
-- read of a line in the combined log format.
use host_health_mcp.Base.{Bytes, Bool, true, false, not, ◌||◌, List, [], ◌∷◌}
use host_health_mcp.Helper.Deadline.{ℤ}
use host_health_mcp.Parsers.Int64.{ltb_ℤ}
use host_health_mcp.Parsers.AccessLog.{cutoff_of}
use host_health_mcp.Parsers.AccessLog.Reply.{
  Param, Coverage, full, partial, NginxApacheStatus, World, window_of,
}

-- Some instant is not after the cutoff.
abbrev pub reaches_back : ℤ → List ℤ → Bool
reaches_back cutoff [] = false
reaches_back cutoff (t ∷ ts) = not (ltb_ℤ cutoff t) || reaches_back cutoff ts

module _ (w : World) (p : Param) (cap : Bytes) (out : NginxApacheStatus) where
  abbrev cutoff : ℤ
  cutoff = cutoff_of w.now (window_of p)

  abbrev coverage_if : Bool → Coverage
  coverage_if true = full
  coverage_if false = partial
