-- ===== src/Plugin.antt =====
-- The plugin: plugin/internal/client/client.go, which resolves a host and posts to a daemon (Host,
-- Client), and plugin/internal/mcp/mcp.go, which serves MCP over lines of JSON-RPC (Compat,
-- Server, Serve).
pub mod Host
pub mod Resolved
pub mod Client
pub mod Compat
pub mod Server
pub mod Serve
pub mod Session
pub mod Exchanges
mod Examples
