-- ===== src/Plugin/Compat.antt =====
-- The compatibility of a host in plugin/internal/mcp/mcp.go: how a manifest is classified and what the
-- cache holds. `atoi` is strconv.Atoi, `schema_version` is json.Unmarshal at that field.
use host_health_mcp.Base.{
  Bytes, codes, Bool, false, Option, none, some, List, [], ◌∷◌, ◌==◌, if◌then◌else◌,
}
use host_health_mcp.Base.Maybe.{◌>>=◌}
use host_health_mcp.Base.Eq.{bytes_eq}
use host_health_mcp.Base.Assoc
use host_health_mcp.Helper.Deadline.{ℤ, pos, negsuc}

pub data Reason : Type 0 where
  empty_reason no_schema_version : Reason
  unparseable_version major_mismatch : Bytes → Reason

-- `hostCompat`
pub data HostCompat : Type 0 where
  compatible : HostCompat
  incompatible : Reason → HostCompat

-- The zero value of a missing entry.
abbrev pub or_unset : Option HostCompat → HostCompat
or_unset none = incompatible empty_reason
or_unset (some v) = v

abbrev pub Compat : Type 0
Compat = List (Bytes × HostCompat)

abbrev pub plugin_schema_version : Bytes
plugin_schema_version = codes "1.2.0"

-- The text before the first dot, if there is a dot.
unfoldable pub before_first_dot : Bytes → Option Bytes
before_first_dot [] = none
before_first_dot (c ∷ cs) =
    let rest = before_first_dot cs in
    if c == b'.' then some [] else elim rest [ none ↦ none | some s ↦ some (c ∷ s) ]

abbrev not_empty_text : Bytes → Option Bytes
not_empty_text [] = none
not_empty_text (c ∷ cs) = some (c ∷ cs)

abbrev pub int_eq : ℤ → ℤ → Bool
int_eq (pos a) (pos b) = a == b
int_eq (negsuc a) (negsuc b) = a == b
int_eq _ _ = false

abbrev pub or_zero : Option ℤ → ℤ
or_zero none = pos 0
or_zero (some n) = n

module _ (atoi : Bytes → Option ℤ) where
  unfoldable pub parse_major : Bytes → Option ℤ
  parse_major semver = do s ← before_first_dot semver; major ← not_empty_text s; atoi major

  -- The verdict on a schema version, which is nothing where the manifest has none or is no JSON.
  unfoldable pub classify : Option Bytes → HostCompat
  classify none = incompatible no_schema_version
  classify (some []) = incompatible no_schema_version
  classify (some (c ∷ cs)) =
      let version = c ∷ cs in
      elim (parse_major version) [
        | none ↦ incompatible (unparseable_version version)
        | some daemon_major ↦
            if int_eq (or_zero (parse_major plugin_schema_version)) daemon_major
            then compatible
            else incompatible (major_mismatch version)
      ]

  unfoldable pub record_compat_from_envelope :
      (Bytes → Option Bytes) → Bytes → Bytes → Compat → Compat
  record_compat_from_envelope schema_version host raw compat =
      Assoc.insert host (classify (schema_version raw)) compat
