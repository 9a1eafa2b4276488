-- ===== src/Capabilities/Plan.antt =====
-- daemon/internal/shared/capsplan/capsplan.go: which capabilities a manifest needs.
-- A message is a constructor with the values that its format string takes.
pub mod Sets
pub mod Grants
pub mod Ambient
use text.Mathlib.Text.{◌==◌ as str_eq}
use host_health_mcp.Base.{
  String, Bool, true, false, not, ◌&&◌, ◌||◌, List, [], ◌∷◌, ◌++◌, if◌then◌else◌,
}

unfoldable pub has : List String → String → Bool
has [] want = false
has (v ∷ list) want = if str_eq v want then true else has list want

-- `set`: what was seen, and the order of first insertion.
pub record CapSet : Type 0 where
  pub seen : String → Bool
  pub order : List String

unfoldable pub new_set : CapSet
new_set = record { seen = λ _. false; order = [] }

unfoldable pub add : String → CapSet → CapSet
add v s =
    if s.seen v
    then s
    else record { seen = λ w. if str_eq v w then true else s.seen w; order = s.order ++ (v ∷ []) }

abbrev pub default_backends : List String
default_backends = "smart" ∷ "lvm" ∷ "mdraid" ∷ []

abbrev pub known_backends : List String
known_backends = "smart" ∷ "lvm" ∷ "mdraid" ∷ "zfs" ∷ "btrfs" ∷ []

abbrev pub known_tools : List String
known_tools =
    "manifest" ∷ "system" ∷ "pressure" ∷ "kernel" ∷ "sockets" ∷ "updates" ∷ "storage"
    ∷ "systemd_units" ∷ "dns" ∷ "mail" ∷ "certs" ∷ "backup" ∷ "sensors" ∷ "network" ∷ "security"
    ∷ "firewall" ∷ "firewall_lookup" ∷ "logs" ∷ "workload" ∷ []

abbrev pub known_plugins : List String
known_plugins = "postfix" ∷ "nginx_apache" ∷ "wireguard" ∷ "dovecot" ∷ []

pub data Note : Type 0 where
  backends_defaulted : List String → Note

pub data Warning : Type 0 where
  unknown_backend unknown_tool unknown_plugin : String → Warning

pub record Plan : Type 0 where
  pub bounding : List String
  pub ambient : List String
  pub backends : List String
  pub notes : List Note
  pub warnings : List Warning

-- `for _, n := range names { if !known[n] { warnings = append(warnings, …) } }`
unfoldable pub warn_unknown : (String → Warning) → List String → List String → List Warning
warn_unknown msg known [] = []
warn_unknown msg known (n ∷ names) =
    let rest = warn_unknown msg known names in if has known n then rest else msg n ∷ rest

unfoldable pub effective_backends : List String → List String
effective_backends [] = default_backends
effective_backends (b ∷ bs) = b ∷ bs

unfoldable pub notes_for : List String → List String → List Note
notes_for tools [] = if has tools "storage" then backends_defaulted default_backends ∷ [] else []
notes_for tools (b ∷ bs) = []

abbrev pub add_if : Bool → String → CapSet → CapSet
add_if b c s = if b then add c s else s

-- The blocks of `For` that call `caps.add`, in order.
unfoldable pub grant_security : List String → CapSet → CapSet
grant_security tools s =
    if has tools "security" then add "CAP_DAC_READ_SEARCH" (add "CAP_AUDIT_CONTROL" s) else s

unfoldable pub grant_storage : List String → List String → CapSet → CapSet
grant_storage tools backends s =
    if has tools "storage"
    then add_if (has backends "btrfs") "CAP_SYS_ADMIN" (
        add_if (has backends "zfs") "CAP_SYS_ADMIN"
          (add_if (has backends "smart") "CAP_SYS_RAWIO" (add "CAP_DAC_READ_SEARCH" s)))
    else s

unfoldable pub grant_workload : List String → List String → CapSet → CapSet
grant_workload tools plugins s =
    if has tools "workload"
    then add_if (has plugins "nginx_apache") "CAP_DAC_READ_SEARCH"
        (add_if (has plugins "wireguard") "CAP_NET_ADMIN" s)
    else s

unfoldable pub grant_firewall : List String → CapSet → CapSet
grant_firewall tools s =
    add_if (has tools "firewall_lookup") "CAP_NET_ADMIN"
      (add_if (has tools "firewall") "CAP_NET_ADMIN" s)

-- `backends` is the list in effect.
unfoldable pub granted : List String → List String → List String → CapSet
granted tools plugins backends = grant_firewall tools (
    grant_workload tools plugins
      (grant_storage tools backends (grant_security tools (add "CAP_CHOWN" new_set))))

-- `for _, c := range p.Bounding { if c == capChown { continue }; ambient.add(c) }`
unfoldable pub ambient_from : List String → CapSet → CapSet
ambient_from [] s = s
ambient_from (c ∷ cs) s = ambient_from cs (if str_eq c "CAP_CHOWN" then s else add c s)

-- `For`
unfoldable pub plan_for : List String → List String → List String → Plan
plan_for tools plugins backends =
    let used = effective_backends backends in
    let bounding = (granted tools plugins used).order in
    record {
      bounding = bounding;
      ambient = (ambient_from bounding new_set).order;
      backends = used;
      notes = notes_for tools backends;
      warnings =
          warn_unknown unknown_backend known_backends used
          ++ (warn_unknown unknown_tool known_tools tools
              ++ warn_unknown unknown_plugin known_plugins plugins);
    }

-- `keys` ranges over a map in an order of Go's choosing: the three lists are those orders.
unfoldable pub every_grantable_capability : List String → List String → List String → List String
every_grantable_capability tools plugins backends = (plan_for tools plugins backends).bounding
