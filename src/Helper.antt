-- ===== src/Helper.antt =====
-- The root helper: op tokens, the dispatch table, per-op deadlines, the wire frames, and the server
-- that ties them together (daemon/internal/helper and daemon/internal/shared/proto).
pub mod Ops
pub mod Registry
pub mod Deadline
pub mod Frame
pub mod Server
pub mod Exec
pub mod Invoke
mod Examples
