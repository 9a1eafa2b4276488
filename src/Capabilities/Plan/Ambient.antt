-- ===== src/Capabilities/Plan/Ambient.antt =====
-- The plan of `For` in daemon/internal/shared/capsplan/capsplan.go as a whole: its two lists, and
-- the list of everything that the rules can grant.
use text.Mathlib.Text.{◌==◌ as str_eq}
use text.Mathlib.TextEquality.{eq_iff}
use host_health_mcp.Base.{
  String, true, false, not, ◌&&◌, ◌||◌, List, [], ◌∷◌, ◌≡◌, refl, ◌∙◌, sym, arith, All, Bool-cases,
  inl, inr,
}
use host_health_mcp.Capabilities.Plan.Sets.{
  Distinct, IsListed, IsListed-new_set, IsListed-add, seen-add,
}
use host_health_mcp.Capabilities.Plan.Grants.{IsListed-granted, seen-granted, granted_for}
use host_health_mcp.Capabilities.Plan.{
  has, CapSet, new_set, add, effective_backends, granted, ambient_from, plan_for, known_tools,
  known_plugins, known_backends, every_grantable_capability,
}

IsListed-ambient_from : (cs : List String) (s : CapSet) → IsListed s → IsListed (ambient_from cs s)
unfolding ambient_from
IsListed-ambient_from [] s i = i
IsListed-ambient_from (c ∷ cs) s i = elim (Bool-cases (str_eq c "CAP_CHOWN")) [
  | inl chown ↦ rw chown (IsListed-ambient_from cs s i)
  | inr other ↦ rw other (IsListed-ambient_from cs (add c s) (IsListed-add c s i))
]

seen-ambient_from :
    (cs : List String) (s : CapSet) (w : String)
    → (ambient_from cs s).seen w ≡ (has cs w && not (str_eq w "CAP_CHOWN") || s.seen w)
unfolding ambient_from has
seen-ambient_from [] s w = refl
seen-ambient_from (c ∷ cs) s w = ground (
  arith,
  seen-ambient_from cs s w,
  seen-ambient_from cs (add c s) w,
  seen-add c w s,
  eq_iff c w,
  eq_iff c "CAP_CHOWN",
  eq_iff w "CAP_CHOWN",
)

-- The ambient set is the bounding set less CAP_CHOWN, and neither list holds a name twice.
pub ambient_of_bounding :
    (ts ps bs : List String)
    → ((w : String)
        → has (plan_for ts ps bs).ambient w
          ≡ (has (plan_for ts ps bs).bounding w && not (str_eq w "CAP_CHOWN")))
      × Distinct (plan_for ts ps bs).bounding
      × Distinct (plan_for ts ps bs).ambient
unfolding plan_for
ambient_of_bounding ts ps bs =
    let used = effective_backends bs in
    let order = (granted ts ps used).order in
    let amb = IsListed-ambient_from order new_set IsListed-new_set in
    (
      λ w. ground (arith, amb.listed w, seen-ambient_from order new_set w, seen-new_set w),
      (IsListed-granted ts ps used).distinct,
      amb.distinct,
    )
  where
    seen-new_set : (w : String) → new_set.seen w ≡ false
    seen-new_set w = sym (IsListed-new_set.listed w) ∙ unfold has new_set in refl

-- The names that the rules know.
abbrev pub every_rule : List String
every_rule =
    "CAP_CHOWN" ∷ "CAP_SYS_ADMIN" ∷ "CAP_SYS_RAWIO" ∷ "CAP_AUDIT_CONTROL" ∷ "CAP_NET_ADMIN"
    ∷ "CAP_DAC_READ_SEARCH" ∷ []

pub bounding_of_plan :
    (ts ps bs : List String)
    → (has (plan_for ts ps bs).bounding "CAP_CHOWN" ≡ true)
      × (has (plan_for ts ps bs).bounding "CAP_SYS_ADMIN"
          ≡ (has ts "storage" && (has bs "zfs" || has bs "btrfs")))
      × (has (plan_for ts ps bs).bounding "CAP_SYS_RAWIO"
          ≡ (has ts "storage" && has (effective_backends bs) "smart"))
      × (has (plan_for ts ps bs).bounding "CAP_AUDIT_CONTROL" ≡ has ts "security")
      × (has (plan_for ts ps bs).bounding "CAP_NET_ADMIN" ≡ (
          has ts "firewall" || has ts "firewall_lookup" || has ts "workload" && has ps "wireguard"))
      × (has (plan_for ts ps bs).bounding "CAP_DAC_READ_SEARCH"
          ≡ (has ts "security" || has ts "storage" || has ts "workload" && has ps "nginx_apache"))
      × ((w : String) → has every_rule w ≡ false → has (plan_for ts ps bs).bounding w ≡ false)
unfolding plan_for
bounding_of_plan ts ps bs =
    let used = effective_backends bs in
    let (chown, admin, raw, audit, net, dac) = granted_for ts ps used in
    (chown, admin ∙ declared ts bs, raw, audit, net, dac, λ w. no_other w)
  where
    declared :
        (ts bs : List String)
        → (has ts "storage"
            && (has (effective_backends bs) "zfs" || has (effective_backends bs) "btrfs"))
          ≡ (has ts "storage" && (has bs "zfs" || has bs "btrfs"))
    declared ts [] = unfold effective_backends has in refl
    declared ts (b ∷ bs) = unfold effective_backends in refl

    no_other :
        (w : String)
        → has every_rule w ≡ false
        → has (granted ts ps (effective_backends bs)).order w ≡ false
    no_other w h = unfold has in ground (arith, seen-granted ts ps (effective_backends bs) w, h)

-- The names in a list that holds every known name.
abbrev pub Covers : List String → List String → Type 0
Covers names known = (n : String) → has known n ≡ true → has names n ≡ true

known :
    (has known_tools "firewall" ≡ true)
    × (has known_tools "workload" ≡ true)
    × (has known_tools "storage" ≡ true)
    × (has known_tools "security" ≡ true)
    × (has known_plugins "wireguard" ≡ true)
    × (has known_plugins "nginx_apache" ≡ true)
    × (has known_backends "smart" ≡ true)
    × (has known_backends "zfs" ≡ true)
unfolding has
known = (refl, refl, refl, refl, refl, refl, refl, refl)

has-All :
    (names cs : List String) (w : String)
    → All (λ c. has names c ≡ true) cs
    → has cs w ≡ true
    → has names w ≡ true
unfolding has
has-All names [] w a h = cc
has-All names (c ∷ cs) w a h = ground (arith, has-All names cs w a.1, eq_iff c w, a.0)

full_plan_lem :
    (tools plugins rest : List String) (b : String)
    → Covers tools known_tools
    → Covers plugins known_plugins
    → Covers (b ∷ rest) known_backends
    → All (λ c. has (plan_for tools plugins (b ∷ rest)).bounding c ≡ true) every_rule
unfolding effective_backends
full_plan_lem tools plugins rest b ct cp cb =
    let (chown, admin, raw, audit, net, dac, other) = bounding_of_plan tools plugins (b ∷ rest) in
    let storage = ct "storage" known.2 in
    let security = ct "security" known.3 in
    (
      chown,
      (
        admin ∙ rw (storage, cb "zfs" known.7),
        (
          raw ∙ rw (storage, cb "smart" known.6),
          (audit ∙ security, (net ∙ rw (ct "firewall" known.0), (dac ∙ rw security, tt))),
        ),
      ),
    )

-- Whatever the manifest, and in whatever order the maps are ranged over, a plan grants nothing
-- that is not among the capabilities listed as grantable.
pub every_grantable_capability_lem :
    (tools plugins backends ts ps bs : List String) (w : String)
    → Covers tools known_tools
    → Covers plugins known_plugins
    → Covers backends known_backends
    → has (plan_for ts ps bs).bounding w ≡ true
    → has (every_grantable_capability tools plugins backends) w ≡ true
unfolding every_grantable_capability plan_for
every_grantable_capability_lem tools plugins [] ts ps bs w ct cp cb h =
    let smart = cb "smart" (unfold has in refl) in unfold has in cc smart
every_grantable_capability_lem tools plugins (b ∷ rest) ts ps bs w ct cp cb h =
    elim (Bool-cases (has every_rule w)) [
      | inl rule ↦
          has-All (granted tools plugins (effective_backends (b ∷ rest))).order every_rule w
            (full_plan_lem tools plugins rest b ct cp cb) rule
      | inr other ↦ cc ((bounding_of_plan ts ps bs).6 w other)
    ]
