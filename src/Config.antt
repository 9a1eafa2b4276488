-- ===== src/Config.antt =====
-- daemon/internal/daemon/config/config.go and the checks of daemon/cmd/daemon/main.go before it serves.
-- This file has the types of daemon.yml and manifest.yml and `Daemon.Validate`. A Go map is the list
-- of its entries in the order in which it is ranged over. `is_prefix` and `is_addr` are that
-- netip.ParsePrefix and netip.ParseAddr accept a text.
pub mod Valid
pub mod Units
pub mod Lenient
pub mod Startup
pub mod Served
pub mod Safe
pub mod Metered
mod Examples
use host_health_mcp.Base.{
  ℕ, suc, Bytes, codes, text_eq, Bool, true, false, not, ◌&&◌, ◌||◌, Option, none, some, List, [],
  ◌∷◌, ◌==◌, if◌then◌else◌,
}
use host_health_mcp.Base.Maybe.{or_else}
use host_health_mcp.Helper.Deadline.{ℤ, pos, negsuc, positive}

-- `enabled` is the pointer: absent, or its value.
pub record BucketLimit : Type 0 where
  pub sustained_per_min : ℤ
  pub burst : ℤ
  pub enabled : Option Bool

pub record Daemon : Type 0 where
  pub bind_addr : Bytes
  pub tls_cert_path : Bytes
  pub tls_key_path : Bytes
  pub client_ca_path : Bytes
  pub cache_ttl_overrides : List (Bytes × ℤ)
  pub timeout_overrides : List (Bytes × ℤ)
  pub ipv4_ranges : List Bytes
  pub ipv6_ranges : List Bytes
  pub public_bind_acknowledged : Bool
  pub expensive_tool_buckets : List (Bytes × BucketLimit)
  pub max_concurrent_handshakes : ℤ
  pub ip_filter_allow : List Bytes

pub record Manifest : Type 0 where
  pub enabled_tools : List Bytes
  pub whitelisted_units : List Bytes
  pub whitelisted_patterns : List Bytes
  pub workload_plugins : List Bytes
  pub plugin_config : List (Bytes × List (Bytes × Bytes))

pub data ConfigError : Type 0 where
  no_bind_addr : ConfigError
  no_tls_paths : ConfigError
  bad_handshakes : ℤ → ConfigError
  no_limit : Bytes → ConfigError
  bad_burst : Bytes → ConfigError
  bad_rate : Bytes → ConfigError
  bad_range : ℕ → Bytes → ConfigError
  bad_filter : ℕ → Bytes → ConfigError
  empty_unit : ℕ → ConfigError
  glob_unit : ℕ → Bytes → ConfigError
  empty_pattern : ℕ → ConfigError
  only_glob : ℕ → Bytes → ConfigError
  unknown_tools : List Bytes → ConfigError

abbrev pub is_empty : Bytes → Bool
is_empty [] = true
is_empty (c ∷ cs) = false

abbrev pub is_zero : ℤ → Bool
is_zero (pos n) = n == 0
is_zero (negsuc n) = false

-- An error if there is no number of a value, as `if v <= 0` has it.
abbrev pub unless_positive : ConfigError → Option ℕ → Option ConfigError
unless_positive e none = some e
unless_positive e (some n) = none

-- `b.Enabled != nil && !*b.Enabled`
abbrev pub is_disabled : Option Bool → Bool
is_disabled none = false
is_disabled (some enabled) = not enabled

unfoldable pub check_bucket : Bytes → BucketLimit → Option ConfigError
check_bucket tool b =
    if is_disabled b.enabled
    then none
    else if is_zero b.sustained_per_min && is_zero b.burst
    then some (no_limit tool)
    else or_else (unless_positive (bad_burst tool) (positive b.burst))
        (unless_positive (bad_rate tool) (positive b.sustained_per_min))

unfoldable pub check_buckets : List (Bytes × BucketLimit) → Option ConfigError
check_buckets [] = none
check_buckets ((tool, b) ∷ bs) = or_else (check_bucket tool b) (check_buckets bs)

-- A loop that returns at the first entry that a test refuses, with its index.
unfoldable pub check_each :
    (Bytes → Bool) → (ℕ → Bytes → ConfigError) → ℕ → List Bytes → Option ConfigError
check_each fine e i [] = none
check_each fine e i (x ∷ xs) =
    let rest = check_each fine e (suc i) xs in if fine x then rest else some (e i x)

abbrev pub is_keyword : Bytes → Bool
is_keyword e =
    text_eq e (codes "any")
    || text_eq e (codes "localhost")
    || text_eq e (codes "link-local")
    || text_eq e (codes "multicast")

module _ (is_prefix is_addr : Bytes → Bool) where
  unfoldable pub valid_ip_filter_entry : Bytes → Bool
  valid_ip_filter_entry e = is_keyword e || is_prefix e || is_addr e

  unfoldable pub validate : Daemon → Option ConfigError
  validate d =
      if is_empty d.bind_addr
      then some no_bind_addr
      else if is_empty d.tls_cert_path || is_empty d.tls_key_path || is_empty d.client_ca_path
      then some no_tls_paths
      else or_else
          (unless_positive (bad_handshakes d.max_concurrent_handshakes)
            (positive d.max_concurrent_handshakes))
          (or_else (check_buckets d.expensive_tool_buckets) (
            or_else (check_each is_prefix bad_range 0 d.ipv4_ranges) (
              or_else (check_each is_prefix bad_range 0 d.ipv6_ranges)
                (check_each valid_ip_filter_entry bad_filter 0 d.ip_filter_allow))))
