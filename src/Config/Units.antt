-- ===== src/Config/Units.antt =====
-- The checks of manifest.yml, and those of names, in daemon/internal/daemon/config/config.go, with
-- `BindAddrIsPublic`.
-- `trim` is strings.TrimSpace, `sort` sort.Strings, `split_host` the host of net.SplitHostPort, and
-- `is_private` tells of an address that netip.ParseAddr accepts whether it is a loopback, link-local
-- or private one.
use host_health_mcp.Base.{
  ℕ, suc, Bytes, codes, text_eq, Bool, true, false, not, ◌||◌, Option, none, some, List, [], ◌∷◌,
  ◌++◌, map, ◌==◌, if◌then◌else◌,
}
use host_health_mcp.Base.Maybe.{or_else}
use host_health_mcp.Parsers.Scan.{all_bytes}
use host_health_mcp.Config.{
  Daemon, Manifest, ConfigError, empty_unit, glob_unit, empty_pattern, only_glob, unknown_tools,
  is_empty,
}

-- `unitGlobMetachars`
abbrev pub is_glob : ℕ → Bool
is_glob c = c == b'*' || c == b'?' || c == b'['

unfoldable pub has_glob : Bytes → Bool
has_glob [] = false
has_glob (c ∷ cs) = is_glob c || has_glob cs

-- strings.Trim leaves nothing of a text of such bytes alone.
abbrev pub is_only_glob : Bytes → Bool
is_only_glob p = all_bytes (λ c. is_glob c || c == b']') p

module _ (trim : Bytes → Bytes) where
  unfoldable pub check_units : ℕ → List Bytes → Option ConfigError
  check_units i [] = none
  check_units i (u ∷ us) =
      let rest = check_units (suc i) us in
      if is_empty (trim u)
      then some (empty_unit i)
      else if has_glob u
      then some (glob_unit i u)
      else rest

  unfoldable pub check_patterns : ℕ → List Bytes → Option ConfigError
  check_patterns i [] = none
  check_patterns i (p ∷ ps) =
      let rest = check_patterns (suc i) ps in
      if is_empty (trim p)
      then some (empty_pattern i)
      else if is_only_glob p
      then some (only_glob i p)
      else rest

  unfoldable pub validate_unit_selectors : Manifest → Option ConfigError
  validate_unit_selectors m =
      or_else (check_units 0 m.whitelisted_units) (check_patterns 0 m.whitelisted_patterns)

-- `knownWorkloadPluginKeys`; `none` is a plugin that it does not know.
unfoldable pub known_keys : Bytes → Option (List Bytes)
known_keys plugin =
    if text_eq plugin (codes "nginx_apache")
    then some (
        codes "access_log_path"
        ∷ codes "access_log_window_minutes"
        ∷ codes "access_log_tail_bytes"
        ∷ [])
    else if text_eq plugin (codes "wireguard")
        || text_eq plugin (codes "postfix")
        || text_eq plugin (codes "dovecot")
    then some []
    else none

unfoldable pub is_in : Bytes → List Bytes → Bool
is_in x [] = false
is_in x (y ∷ ys) = text_eq x y || is_in x ys

unfoldable pub unknown_keys : List Bytes → List (Bytes × Bytes) → List Bytes
unknown_keys allowed [] = []
unknown_keys allowed ((k, v) ∷ kv) =
    let rest = unknown_keys allowed kv in if is_in k allowed then rest else k ∷ rest

abbrev plugin_warnings : Bytes → Option (List Bytes) → List (Bytes × Bytes) → List (Bytes × Bytes)
plugin_warnings plugin none kv = []
plugin_warnings plugin (some allowed) kv = map (λ k. (plugin, k)) (unknown_keys allowed kv)

-- A plugin and a key for each warning.
unfoldable pub check_plugin_config : List (Bytes × List (Bytes × Bytes)) → List (Bytes × Bytes)
check_plugin_config [] = []
check_plugin_config ((plugin, kv) ∷ ps) =
    plugin_warnings plugin (known_keys plugin) kv ++ check_plugin_config ps

unfoldable pub unregistered : {V : Type 0} → (Bytes → Bool) → Bytes → List (Bytes × V) → List Bytes
unregistered registered key [] = []
unregistered registered key ((tool, v) ∷ m) =
    let rest = unregistered registered key m in
    if registered tool then rest else (key ++ tool) ∷ rest

abbrev pub if_unknown : List Bytes → List Bytes → Option ConfigError
if_unknown [] sorted = none
if_unknown (u ∷ us) sorted = some (unknown_tools sorted)

unfoldable pub validate_tool_names :
    (List Bytes → List Bytes) → (Bytes → Bool) → Daemon → Option ConfigError
validate_tool_names sort registered d =
    let unknown =
      unregistered registered (codes "expensive_tool_buckets.") d.expensive_tool_buckets
      ++ unregistered registered (codes "timeout_overrides.") d.timeout_overrides
      ++ unregistered registered (codes "cache_ttl_overrides.") d.cache_ttl_overrides in
    if_unknown unknown (sort unknown)

module _ (split_host : Bytes → Option Bytes) (is_private : Bytes → Option Bool) where
  abbrev host_of : Option Bytes → Bytes → Bytes
  host_of none bind_addr = bind_addr
  host_of (some host) bind_addr = host

  abbrev unless_private : Option Bool → Bool
  unless_private none = false
  unless_private (some private) = not private

  unfoldable pub bind_addr_is_public : Daemon → Bool
  bind_addr_is_public d =
      let host = host_of (split_host d.bind_addr) d.bind_addr in
      if is_empty host || text_eq host (codes "0.0.0.0") || text_eq host (codes "::")
      then true
      else unless_private (is_private host)
