-- ===== src/Capabilities/Examples.antt =====
-- daemon/internal/shared/capsplan/capsplan.go and daemon/internal/helper/caps/caps.go at concrete
-- inputs.
use text.Mathlib.Text.{◌==◌ as str_eq}
use host_health_mcp.Base.{not, ◌&&◌, String, true, false, ◌≡◌, refl, ℕ, some, List, [], ◌∷◌}
use host_health_mcp.Capabilities.Effective
use host_health_mcp.Capabilities.Plan.{
  has, add, new_set, plan_for, known_tools, known_plugins, known_backends, granted, grant_security,
  grant_storage, grant_workload, grant_firewall, effective_backends, notes_for, warn_unknown,
  ambient_from, backends_defaulted, unknown_tool, default_backends, every_grantable_capability,
}
use host_health_mcp.Capabilities.Plan.Sets.{Distinct}
use host_health_mcp.Capabilities.Plan.Ambient.{
  ambient_of_bounding, bounding_of_plan, every_grantable_capability_lem,
}

-- A storage host that declares no backends, with a misspelt tool.
storage_host : plan_for ("storage" ∷ "sytem" ∷ []) [] [] ≡ record {
  bounding = "CAP_CHOWN" ∷ "CAP_DAC_READ_SEARCH" ∷ "CAP_SYS_RAWIO" ∷ [];
  ambient = "CAP_DAC_READ_SEARCH" ∷ "CAP_SYS_RAWIO" ∷ [];
  backends = default_backends;
  notes = backends_defaulted default_backends ∷ [];
  warnings = unknown_tool "sytem" ∷ [];
}
unfolding plan_for granted grant_security grant_storage grant_workload grant_firewall
    effective_backends notes_for warn_unknown ambient_from has add new_set
storage_host = refl

zfs_grantable :
    has (every_grantable_capability known_tools known_plugins known_backends) "CAP_CHOWN" ≡ true
zfs_grantable =
    every_grantable_capability_lem known_tools known_plugins known_backends [] [] [] "CAP_CHOWN"
      (λ n h. h) (λ n h. h) (λ n h. h) (bounding_of_plan [] [] []).0

-- CapEff of a helper with CAP_CHOWN and CAP_NET_ADMIN.
abbrev narrow : Effective.Set
narrow = record { mask = 0x1001; read = true }

narrow_lacks : Effective.has "CAP_SYS_ADMIN" narrow ≡ false
unfolding Effective.has Effective.bit_of
narrow_lacks = refl

has-false_example :
    (narrow.read ≡ true)
    × (Effective.known "CAP_SYS_ADMIN" ≡ true)
    × ((b : ℕ) → Effective.bit_of "CAP_SYS_ADMIN" ≡ some b → Effective.bit_set 0x1001 b ≡ false)
has-false_example = Effective.has-false "CAP_SYS_ADMIN" narrow narrow_lacks

abbrev zfs_tools : List String
zfs_tools = "storage" ∷ []

abbrev zfs_backends : List String
zfs_backends = "zfs" ∷ []

zfs_ambient :
    ((w : String)
      → has (plan_for zfs_tools [] zfs_backends).ambient w
        ≡ (has (plan_for zfs_tools [] zfs_backends).bounding w && not (str_eq w "CAP_CHOWN")))
    × Distinct (plan_for zfs_tools [] zfs_backends).bounding
    × Distinct (plan_for zfs_tools [] zfs_backends).ambient
zfs_ambient = ambient_of_bounding zfs_tools [] zfs_backends
