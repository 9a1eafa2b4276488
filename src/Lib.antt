-- ===== src/Lib.antt =====
-- host-health-mcp: a daemon that answers authenticated health queries over mutual TLS, a root
-- helper that runs privileged operations for it over a unix socket, and a plugin that speaks MCP
-- to an agent. This library models the parts that decide what is admitted, charged, cached,
-- granted and answered, each from its Go source.
--
-- RateLimit       daemon/internal/daemon/ratelimit/ratelimit.go: buckets (Buckets), the limiter
--                 (RateLimit); Level, Keys, Invariant, Decision, Charge and Rate prove
-- Cache           daemon/internal/daemon/cache/cache.go: the entry map (Cache), running invocations
--                 (Flights), the goroutines of Do (Machine); Entries and Machine prove
-- Capabilities    daemon/internal/shared/capsplan/capsplan.go (Plan) and
--                 daemon/internal/helper/caps/caps.go (Effective)
-- Helper          daemon/internal/shared/proto (Ops, Frame), daemon/internal/helper/dispatch
--                 (Registry), daemon/internal/helper/config (Deadline) and
--                 daemon/internal/helper/server (Server; Warnings, Answers, Connection and
--                 Termination prove)
-- Redact          daemon/internal/daemon/redact/redact.go (Redact; Paths and Rules define and prove)
-- Helper.Invoke   daemon/internal/daemon/helperinvoke/helperinvoke.go (Invoke, OpError; Budget and Served
--                 prove), with daemon/internal/shared/schema/envelope.go (OpError)
-- Helper.Exec     daemon/internal/helper/exec/exec.go (Exec; Capture and Report prove)
-- HttpServer      daemon/internal/daemon/httpserver/httpserver.go (HttpServer, Replies, Identity; Audit, Guards,
--                 Metering and Reuse prove), capped.go (Capped), daemon/internal/daemon/config (Limits)
-- Firewall        daemon/internal/helper/ops/firewall_lookup.go (Address, Lookup, Lookup/Rules and
--                 Lookup/Passes; Overlap and
--                 Lookup/SetRef prove) and firewall.go (Nft, Render, Walk, Elements, Inspect; Rows and
--                 Inspect/Kept, Filtered, Inline and Budget prove)
-- Parsers         daemon/internal/helper/ops/postqueue.go (Postqueue; Tally proves), mdraid.go (Mdraid;
--                 Progress proves), nft.go (NftCounts; Totals proves), wireguard.go (Wireguard; Secrets and Panics prove),
--                 nginx_apache.go (AccessLog, Read and Reply; Lines, Suffix, Coverage, Confined and LogLine prove)
--                 and ssh_journal.go (SshJournal; Counts and Window prove), each an op from what it runs or
--                 reads to its reply; AccessLog/Request is daemon/internal/daemon/tools/workload/nginx_apache.go
-- Config          daemon/internal/daemon/config/config.go (Config, Units; Valid proves), lenient.go (Lenient), and
--                 the checks of daemon/cmd/daemon/main.go (Startup; Served, Safe and Metered prove)
-- Plugin          plugin/internal/client/client.go (Host, Client; Resolved proves) and
--                 plugin/internal/mcp/mcp.go (Compat, Server, Serve; Session and Exchanges prove)
-- Base            lists, maps, texts and results that the parts share
--
-- A Go string is a native String where it is only compared, and a list of bytes where it is cut
-- or joined. A map is a function, or an association list where its length or its order is read.
-- Times are clock readings in nanoseconds, taken as arguments; what runs under a lock is one
-- step. Machine integers are numbers, with wrap-around written out where the code comes near it;
-- float64 tokens of the limiter are exact multiples of a small unit. Loops are recursion over the
-- data; the loop over the frames of a connection takes fuel, and its theorems say how much is
-- enough: more than a fourth of the number of bytes, since every frame takes four.
--
-- The parts meet where the code calls across: a request of HttpServer asks RateLimit and Cache
-- and then a tool; a tool calls Helper.Invoke, whose frames Helper.Server reads and answers by
-- the handler of the op; Firewall and Parsers are such ops, over the children of Helper.Exec.
-- What Config lets through is what RateLimit is made of: Config/Metered applies the bound of
-- RateLimit/Rate to the limiter of a daemon that started; and Parsers/AccessLog/Request makes the
-- parameter that Parsers/AccessLog/Reply reads.
--
-- Not modelled: JSON, YAML, TLS and the text of log lines, which enter as parameters or
-- constructors; subprocesses and files; most parsers of the output of single tools, and the
-- daemon's tools, which put replies together from files and helper calls; the commands, which
-- wire the parts together, but for the checks of the daemon before it serves; the build-time
-- linter.
pub mod Base
pub mod RateLimit
pub mod Cache
pub mod Capabilities
pub mod Helper
pub mod HttpServer
pub mod Redact
pub mod Firewall
pub mod Plugin
pub mod Config
pub mod Parsers
