-- ===== src/Config/Startup.antt =====
-- What daemon/cmd/daemon/main.go checks before it serves, and what it hands to the limiter and to the
-- server. What it reads of the files and of the registry is a record: the decoded files, the names
-- that are registered, and the workload plugins compiled in.
use host_health_mcp.Base.{
  ℕ, Bytes, codes, Bool, true, false, not, ◌&&◌, Option, none, some, List, [], ◌∷◌, ◌++◌,
  if◌then◌else◌,
}
use host_health_mcp.Base.Result.{Result, ok, err, ◌>>=◌}
use host_health_mcp.Helper.Deadline.{ℤ, pos, negsuc}
use host_health_mcp.Base.Assoc.{lookup}
use host_health_mcp.Base.Eq.{bytes_eq}
use host_health_mcp.RateLimit.{Limiter, new}
use host_health_mcp.RateLimit.Buckets.{BucketCfg}
use host_health_mcp.Config.{BucketLimit, Daemon, Manifest, ConfigError, is_disabled, validate}
use host_health_mcp.Config.Lenient.{Decoded, LoadError, decode_strict}
use host_health_mcp.Config.Units.{
  is_in, validate_unit_selectors, validate_tool_names, bind_addr_is_public,
}

pub data StartError : Type 0 where
  not_loaded : LoadError → StartError
  not_valid : ConfigError → StartError
  public_bind : StartError
  not_compiled_in : Bytes → StartError
  unknown_enabled : List Bytes → StartError

-- A disabled bucket's numbers, which may be negative, are not read.
abbrev pub natural : ℤ → ℕ
natural (pos n) = n
natural (negsuc n) = 0

unfoldable pub bucket_cfg : BucketLimit → BucketCfg
bucket_cfg b = record {
  sustained_per_min = natural b.sustained_per_min;
  burst = natural b.burst;
  disabled = is_disabled b.enabled;
}

-- `global`
abbrev pub global_limit : BucketCfg
global_limit = record { sustained_per_min = 30; burst = 10; disabled = false }

-- `perTool`
unfoldable pub per_tool : List (Bytes × BucketLimit) → List (Bytes × BucketCfg)
per_tool [] = []
per_tool ((tool, b) ∷ bs) = (tool, bucket_cfg b) ∷ per_tool bs

-- What the library and the build answer.
pub record Checks : Type 0 where
  pub is_prefix : Bytes → Bool
  pub is_addr : Bytes → Bool
  pub trim : Bytes → Bytes
  pub sort : List Bytes → List Bytes
  pub split_host : Bytes → Option Bytes
  pub is_private : Bytes → Option Bool
  pub registered : List Bytes
  pub compiled_in : List Bytes

pub record Started : Type 0 where
  pub limits : List (Bytes × BucketCfg)
  pub enabled_set : List Bytes
  pub config : Daemon

abbrev pub unless_error : Option ConfigError → Result StartError (Unit {0})
unless_error none = ok tt
unless_error (some e) = err (not_valid e)

abbrev pub loaded : {A : Type 0} → Result LoadError A → Result StartError A
loaded (ok a) = ok a
loaded (err e) = err (not_loaded e)

abbrev pub refuse_if : Bool → StartError → Result StartError (Unit {0})
refuse_if true e = err e
refuse_if false e = ok tt

module _ (k : Checks) where
  -- The registry's names, and "manifest".
  abbrev pub is_registered : Bytes → Bool
  is_registered tool = is_in tool (codes "manifest" ∷ k.registered)

  unfoldable pub check_plugins : List Bytes → Result StartError (Unit {0})
  check_plugins [] = ok tt
  check_plugins (p ∷ ps) =
      let rest = check_plugins ps in if is_in p k.compiled_in then rest else err (not_compiled_in p)

  unfoldable pub unknown_of : List Bytes → List Bytes
  unknown_of [] = []
  unknown_of (t ∷ ts) = let rest = unknown_of ts in if is_registered t then rest else t ∷ rest

  abbrev pub with_manifest : List Bytes → List Bytes
  with_manifest tools =
      if is_in (codes "manifest") tools then tools else tools ++ codes "manifest" ∷ []

  abbrev pub unless_unknown : List Bytes → List Bytes → Result StartError (List Bytes)
  unless_unknown tools [] = ok (with_manifest tools)
  unless_unknown tools (u ∷ us) = err (unknown_enabled (u ∷ us))

  -- The tools that are served: those of `enabled_tools`, or all where it names none.
  unfoldable pub enabled_of : List Bytes → Result StartError (List Bytes)
  enabled_of [] = ok (codes "manifest" ∷ k.registered)
  enabled_of (t ∷ ts) = unless_unknown (t ∷ ts) (unknown_of (t ∷ ts))

  unfoldable pub load_daemon : Decoded Daemon → Result StartError Daemon
  load_daemon file = do
    d ← loaded (decode_strict file)
    _ ← unless_error (validate k.is_prefix k.is_addr d)
    ok d

  unfoldable pub load_manifest : Decoded Manifest → Result StartError Manifest
  load_manifest file = do
    m ← loaded (decode_strict file)
    _ ← unless_error (validate_unit_selectors k.trim m)
    ok m

  unfoldable pub start : Decoded Daemon → Decoded Manifest → Result StartError Started
  start daemon_yml manifest_yml = do
    d ← load_daemon daemon_yml
    _ ←
        refuse_if
          (bind_addr_is_public k.split_host k.is_private d && not d.public_bind_acknowledged)
          public_bind
    m ← load_manifest manifest_yml
    _ ← check_plugins m.workload_plugins
    _ ← unless_error (validate_tool_names k.sort is_registered d)
    tools ← enabled_of m.enabled_tools
    ok (record { limits = per_tool d.expensive_tool_buckets; enabled_set = tools; config = d })

-- The limiter of a daemon that starts at a clock reading.
unfoldable pub limiter_of : Started → ℕ → Limiter
limiter_of s now = new global_limit (λ tool. lookup tool s.limits) now
