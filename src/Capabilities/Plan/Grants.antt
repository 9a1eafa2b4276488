-- ===== src/Capabilities/Plan/Grants.antt =====
-- What `For` of daemon/internal/shared/capsplan/capsplan.go grants, capability by capability.
use text.Mathlib.Text.{◌==◌ as str_eq}
use host_health_mcp.Base.{
  String, Bool, true, false, ◌&&◌, ◌||◌, List, ◌≡◌, ◌∙◌, arith, if◌then◌else◌,
}
use host_health_mcp.Capabilities.Plan.Sets.{IsListed, IsListed-new_set, IsListed-add, seen-add}
use host_health_mcp.Capabilities.Plan.{
  has, CapSet, new_set, add, add_if, granted, grant_security, grant_storage, grant_workload,
  grant_firewall,
}

IsListed-add_if : (b : Bool) (v : String) (s : CapSet) → IsListed s → IsListed (add_if b v s)
IsListed-add_if true v s i = IsListed-add v s i
IsListed-add_if false v s i = i

seen-add_if :
    (b : Bool) (v w : String) (s : CapSet)
    → (add_if b v s).seen w ≡ (if str_eq v w then b || s.seen w else s.seen w)
seen-add_if true v w s = seen-add v w s
seen-add_if false v w s = ground arith

IsListed-if : (b : Bool) (x y : CapSet) → IsListed x → IsListed y → IsListed (if b then x else y)
IsListed-if true x y i j = i
IsListed-if false x y i j = j

-- The blocks, each with what it does to one name.
module _ (ts ps bs : List String) where
  IsListed-grant_security : (s : CapSet) → IsListed s → IsListed (grant_security ts s)
  unfolding grant_security
  IsListed-grant_security s i =
      IsListed-if (has ts "security") _ s (IsListed-add _ _ (IsListed-add _ _ i)) i

  IsListed-grant_storage : (s : CapSet) → IsListed s → IsListed (grant_storage ts bs s)
  unfolding grant_storage
  IsListed-grant_storage s i =
      let dac = IsListed-add "CAP_DAC_READ_SEARCH" s i in
      let raw = IsListed-add_if (has bs "smart") "CAP_SYS_RAWIO" _ dac in
      let zfs = IsListed-add_if (has bs "zfs") "CAP_SYS_ADMIN" _ raw in
      IsListed-if (has ts "storage") _ s (IsListed-add_if (has bs "btrfs") "CAP_SYS_ADMIN" _ zfs) i

  IsListed-grant_workload : (s : CapSet) → IsListed s → IsListed (grant_workload ts ps s)
  unfolding grant_workload
  IsListed-grant_workload s i =
      let net = IsListed-add_if (has ps "wireguard") "CAP_NET_ADMIN" s i in
      IsListed-if (has ts "workload") _ s
        (IsListed-add_if (has ps "nginx_apache") "CAP_DAC_READ_SEARCH" _ net) i

  pub IsListed-granted : IsListed (granted ts ps bs)
  unfolding granted grant_firewall
  IsListed-granted =
      search
        (
          IsListed-add_if, IsListed-grant_workload, IsListed-grant_storage, IsListed-grant_security,
          IsListed-add, IsListed-new_set,
        )
        depth 8

  seen-grant_security :
      (w : String) (s : CapSet)
      → (grant_security ts s).seen w ≡ (
          has ts "security" && (str_eq "CAP_DAC_READ_SEARCH" w || str_eq "CAP_AUDIT_CONTROL" w)
          || s.seen w)
  unfolding grant_security
  seen-grant_security w s = ground (
    arith,
    seen-add "CAP_DAC_READ_SEARCH" w (add "CAP_AUDIT_CONTROL" s),
    seen-add "CAP_AUDIT_CONTROL" w s,
  )

  seen-grant_storage :
      (w : String) (s : CapSet)
      → (grant_storage ts bs s).seen w ≡ (
          has ts "storage"
            && (str_eq "CAP_DAC_READ_SEARCH" w
                || has bs "smart" && str_eq "CAP_SYS_RAWIO" w
                || (has bs "zfs" || has bs "btrfs") && str_eq "CAP_SYS_ADMIN" w)
          || s.seen w)
  unfolding grant_storage
  seen-grant_storage w s =
      let dac = add "CAP_DAC_READ_SEARCH" s in
      let raw = add_if (has bs "smart") "CAP_SYS_RAWIO" dac in
      let zfs = add_if (has bs "zfs") "CAP_SYS_ADMIN" raw in
      ground (
        arith,
        seen-add_if (has bs "btrfs") "CAP_SYS_ADMIN" w zfs,
        seen-add_if (has bs "zfs") "CAP_SYS_ADMIN" w raw,
        seen-add_if (has bs "smart") "CAP_SYS_RAWIO" w dac,
        seen-add "CAP_DAC_READ_SEARCH" w s,
      )

  seen-grant_workload :
      (w : String) (s : CapSet)
      → (grant_workload ts ps s).seen w ≡ (
          has ts "workload"
            && (has ps "wireguard" && str_eq "CAP_NET_ADMIN" w
                || has ps "nginx_apache" && str_eq "CAP_DAC_READ_SEARCH" w)
          || s.seen w)
  unfolding grant_workload
  seen-grant_workload w s =
      let net = add_if (has ps "wireguard") "CAP_NET_ADMIN" s in
      ground (
        arith,
        seen-add_if (has ps "nginx_apache") "CAP_DAC_READ_SEARCH" w net,
        seen-add_if (has ps "wireguard") "CAP_NET_ADMIN" w s,
      )

  seen-grant_firewall :
      (w : String) (s : CapSet)
      → (grant_firewall ts s).seen w
        ≡ ((has ts "firewall" || has ts "firewall_lookup") && str_eq "CAP_NET_ADMIN" w || s.seen w)
  unfolding grant_firewall
  seen-grant_firewall w s =
      let net = add_if (has ts "firewall") "CAP_NET_ADMIN" s in
      ground (
        arith,
        seen-add_if (has ts "firewall_lookup") "CAP_NET_ADMIN" w net,
        seen-add_if (has ts "firewall") "CAP_NET_ADMIN" w s,
      )

  seen-chown : (w : String) → (add "CAP_CHOWN" new_set).seen w ≡ str_eq "CAP_CHOWN" w
  unfolding add new_set
  seen-chown w = ground arith

  has-granted : (w : String) → has (granted ts ps bs).order w ≡ (granted ts ps bs).seen w
  has-granted w = IsListed-granted.listed w

  pub seen-granted :
      (w : String)
      → has (granted ts ps bs).order w ≡ (
          (has ts "firewall" || has ts "firewall_lookup") && str_eq "CAP_NET_ADMIN" w
          || (has ts "workload"
                && (has ps "wireguard" && str_eq "CAP_NET_ADMIN" w
                    || has ps "nginx_apache" && str_eq "CAP_DAC_READ_SEARCH" w)
              || (has ts "storage"
                    && (str_eq "CAP_DAC_READ_SEARCH" w
                        || has bs "smart" && str_eq "CAP_SYS_RAWIO" w
                        || (has bs "zfs" || has bs "btrfs") && str_eq "CAP_SYS_ADMIN" w)
                  || (has ts "security"
                        && (str_eq "CAP_DAC_READ_SEARCH" w || str_eq "CAP_AUDIT_CONTROL" w)
                      || str_eq "CAP_CHOWN" w))))
  seen-granted w =
      has-granted w
      ∙ unfold granted in
        rw (
          seen-grant_firewall w _,
          seen-grant_workload w _,
          seen-grant_storage w _,
          seen-grant_security w _,
          seen-chown w,
        )

  -- Exactly what each capability is granted for; `bs` is the backend list in effect.
  pub granted_for :
      (has (granted ts ps bs).order "CAP_CHOWN" ≡ true)
      × (has (granted ts ps bs).order "CAP_SYS_ADMIN"
          ≡ (has ts "storage" && (has bs "zfs" || has bs "btrfs")))
      × (has (granted ts ps bs).order "CAP_SYS_RAWIO" ≡ (has ts "storage" && has bs "smart"))
      × (has (granted ts ps bs).order "CAP_AUDIT_CONTROL" ≡ has ts "security")
      × (has (granted ts ps bs).order "CAP_NET_ADMIN" ≡ (
          has ts "firewall" || has ts "firewall_lookup" || has ts "workload" && has ps "wireguard"))
      × (has (granted ts ps bs).order "CAP_DAC_READ_SEARCH"
          ≡ (has ts "security" || has ts "storage" || has ts "workload" && has ps "nginx_apache"))
  granted_for = (
    ground (arith, seen-granted "CAP_CHOWN"),
    ground (arith, seen-granted "CAP_SYS_ADMIN"),
    ground (arith, seen-granted "CAP_SYS_RAWIO"),
    ground (arith, seen-granted "CAP_AUDIT_CONTROL"),
    ground (arith, seen-granted "CAP_NET_ADMIN"),
    ground (arith, seen-granted "CAP_DAC_READ_SEARCH"),
  )
