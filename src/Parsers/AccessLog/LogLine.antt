-- ===== src/Parsers/AccessLog/LogLine.antt =====
-- What daemon/internal/helper/ops/nginx_apache.go reads of a line in the common or combined log format.
use host_health_mcp.Base.{ℕ, ◌+◌, ◌/◌, ◌%◌, Bytes, ◌∷◌, ◌++◌}

-- What stands before the request: the client, the time in brackets, a blank.
abbrev pub head : Bytes → Bytes → Bytes → Bytes
head client stamp gap = client ++ b'[' ∷ (stamp ++ b']' ∷ gap)

abbrev pub digits3 : ℕ → Bytes → Bytes
digits3 status rest =
    (status / 100 + b'0') ∷ (status / 10 % 10 + b'0') ∷ (status % 10 + b'0') ∷ rest

abbrev pub log_line : Bytes → Bytes → Bytes → Bytes → ℕ → Bytes → Bytes
log_line client stamp gap request status rest =
    head client stamp gap ++ b'"' ∷ (request ++ b'"' ∷ (b' ' ∷ digits3 status (b' ' ∷ rest)))
