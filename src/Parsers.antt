-- ===== src/Parsers.antt =====
-- Ops of daemon/internal/helper/ops that run a system tool and parse what it prints, a file each.
-- A scanner of daemon/internal/shared/linescan is `scan`: the lines of an output, and the error that
-- ended them early if one did.
pub mod Scan
pub mod Postqueue
pub mod Mdraid
pub mod NftCounts
pub mod Int64
pub mod AccessLog
pub mod SshJournal
pub mod Wireguard
mod Examples
