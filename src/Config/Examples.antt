-- ===== src/Config/Examples.antt =====
-- A start of the daemon with small files, and a file that only the installer accepts.
use host_health_mcp.Base.{
  List, ◌+◌, ◌-◌, ◌*◌, ◌≤◌, arith, ◌≡◌, ◌↔◌, refl, Bytes, codes, text_eq, Bool, true, false, none,
  some, [], ◌∷◌,
}
use host_health_mcp.Base.Result.{ok}
use host_health_mcp.Helper.Deadline.{pos}
use host_health_mcp.Parsers.Scan.{all_bytes}
use host_health_mcp.Config.{
  Daemon, Manifest, validate, check_bucket, check_buckets, check_each, valid_ip_filter_entry,
}
use host_health_mcp.Config.Valid.{IsRunnable, validate_iff}
use host_health_mcp.Config.Units.{
  is_in, unregistered, validate_tool_names, check_units, check_patterns, has_glob,
  validate_unit_selectors, bind_addr_is_public,
}
use host_health_mcp.Config.Lenient.{decode_strict}
use host_health_mcp.Config.Startup.{
  limiter_of, Checks, Started, bucket_cfg, per_tool, check_plugins, unknown_of, enabled_of,
  load_daemon, load_manifest, start,
}
use host_health_mcp.RateLimit.Buckets.{token}
use host_health_mcp.RateLimit.Rate.{Event, call, tick, grants}
use host_health_mcp.Config.Metered.{start-grants}

abbrev is_prefix : Bytes → Bool
is_prefix r = text_eq r (codes "10.0.0.0/8")

abbrev checks : Checks
checks = record {
  is_prefix = is_prefix;
  is_addr = λ _. false;
  trim = λ s. s;
  sort = λ xs. xs;
  split_host = λ _. some (codes "192.0.2.7");
  is_private = λ _. some false;
  registered = codes "logs" ∷ codes "storage" ∷ [];
  compiled_in = codes "wireguard" ∷ [];
}

abbrev daemon : Daemon
daemon = record {
  bind_addr = codes "192.0.2.7:8443";
  tls_cert_path = codes "/c";
  tls_key_path = codes "/k";
  client_ca_path = codes "/a";
  cache_ttl_overrides = [];
  timeout_overrides = [];
  ipv4_ranges = codes "10.0.0.0/8" ∷ [];
  ipv6_ranges = [];
  public_bind_acknowledged = true;
  expensive_tool_buckets =
      (codes "logs", record { sustained_per_min = pos 6; burst = pos 2; enabled = none })
      ∷ (codes "storage", record { sustained_per_min = pos 0; burst = pos 0; enabled = some false })
      ∷ [];
  max_concurrent_handshakes = pos 16;
  ip_filter_allow = codes "localhost" ∷ [];
}

abbrev manifest_file : Manifest
manifest_file = record {
  enabled_tools = codes "logs" ∷ [];
  whitelisted_units = codes "ssh.service" ∷ [];
  whitelisted_patterns = codes "nginx*" ∷ [];
  workload_plugins = codes "wireguard" ∷ [];
  plugin_config = [];
}

abbrev started : Started
started = record {
  limits =
      (codes "logs", record { sustained_per_min = 6; burst = 2; disabled = false })
      ∷ (codes "storage", record { sustained_per_min = 0; burst = 0; disabled = true })
      ∷ [];
  enabled_set = codes "logs" ∷ codes "manifest" ∷ [];
  config = daemon;
}

starts : start checks (ok (daemon, none)) (ok (manifest_file, none)) ≡ ok started
unfolding start load_daemon load_manifest decode_strict validate check_buckets check_bucket
    check_each valid_ip_filter_entry bind_addr_is_public validate_unit_selectors check_units
    check_patterns has_glob check_plugins validate_tool_names unregistered enabled_of unknown_of
    per_tool bucket_cfg is_in all_bytes text_eq
starts = refl

validate_iff_example :
    (validate is_prefix (λ _. false) daemon ≡ none) ↔ IsRunnable is_prefix (λ _. false) daemon
validate_iff_example = validate_iff is_prefix (λ _. false) daemon

abbrev requests : List Event
requests =
    call 0 (codes "curl") (codes "logs")
    ∷ tick 1
    ∷ call 60_000_000_000 (codes "curl") (codes "storage")
    ∷ []

-- Ten calls and thirty for the one minute.
start-grants_example :
    grants (codes "curl") requests (limiter_of started 0) * token
    ≤ 10 * token + (60_000_000_000 - 0) * 30
start-grants_example =
    start-grants checks (ok (daemon, none)) (ok (manifest_file, none)) started starts (omega arith)
      (omega arith) (codes "curl") 0 requests (omega arith)
