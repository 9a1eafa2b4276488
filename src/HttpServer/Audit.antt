-- ===== src/HttpServer/Audit.antt =====
-- The audit line and the reply of a request in daemon/internal/daemon/httpserver/httpserver.go.
use host_health_mcp.Base.{◌≡◌, Bytes, [], ◌∷◌, length}
use host_health_mcp.Base.Result.{Result}
use host_health_mcp.Cache
use host_health_mcp.RateLimit
use host_health_mcp.HttpServer.Replies.{AuditEntry, Reply, envelope, failure, State}

-- A line says what the reply is.
abbrev pub Agrees : AuditEntry → Reply → Type 0
Agrees e (envelope payload _ _) =
    (e.outcome ≡ "ok") × (e.response_size ≡ length payload) × (e.reject_reason ≡ "")
Agrees e (failure _ code _) = (e.outcome ≡ code) × (e.response_size ≡ 0) × (e.args ≡ [])

-- From `s` to `t` one line and one reply were written, which agree.
pub record Recorded {W : Type 0} (caller tool : Bytes) (s t : State W) : Type 0 where
  pub line : AuditEntry
  pub reply : Reply
  pub audit : t.audit ≡ line ∷ s.audit
  pub replies : t.replies ≡ reply ∷ s.replies
  pub who : line.caller ≡ caller
  pub what : line.tool ≡ tool
  pub agree : Agrees line reply

-- No line and no reply was written from `s` to `t`.
abbrev pub Silent : {W : Type 0} → State W → State W → Type 0
Silent s t = (t.audit ≡ s.audit) × (t.replies ≡ s.replies)
