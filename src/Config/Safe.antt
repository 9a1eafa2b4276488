-- ===== src/Config/Safe.antt =====
-- What holds when daemon/cmd/daemon/main.go begins to serve.
use host_health_mcp.Base.{
  ◌≤◌, ◌≡◌, refl, ap, subst, Bytes, codes, Bool, true, false, not, ◌&&◌, Option, none, some, List,
  [], ◌∷◌, ◌++◌, ◌⊎◌, inl, inr, All, arith, Bool-cases,
}
use host_health_mcp.Base.Result.{Result, ok, bind-eq-ok}
use host_health_mcp.Helper.Deadline.{ℤ}
use host_health_mcp.RateLimit.Buckets.{BucketCfg, unlimited}
use host_health_mcp.Config.{BucketLimit, Daemon, Manifest, ConfigError, is_disabled, validate}
use host_health_mcp.Config.Valid.{IsPositive, IsUsable, AllUsable, IsRunnable, validate-IsRunnable}
use host_health_mcp.Config.Units.{
  if_unknown, unregistered, validate_tool_names, bind_addr_is_public,
}
use host_health_mcp.Config.Served.{IsServed, enabled_of-IsServed}
use host_health_mcp.Config.Lenient.{Decoded, decode_strict}
use host_health_mcp.Config.Startup.{
  StartError, Checks, Started, natural, bucket_cfg, per_tool, unless_error, loaded, refuse_if,
  is_registered, check_plugins, enabled_of, load_daemon, load_manifest, start,
}

-- A limit of the limiter: it is off, or the bucket is not an unlimited one and holds a token.
abbrev pub IsLimit : BucketCfg → Type 0
IsLimit c =
    (c.disabled ≡ true) ⊎ ((unlimited c ≡ false) × (1 ≤ c.burst) × (1 ≤ c.sustained_per_min))

positive-natural : (z : ℤ) → IsPositive z → 1 ≤ natural z
positive-natural z (n, h) = rw h (omega arith)

limited : (c : BucketCfg) → 1 ≤ c.burst → unlimited c ≡ false
limited c h = ground (arith, h)

bucket_cfg-IsLimit : (b : BucketLimit) → IsUsable b → IsLimit (bucket_cfg b)
unfolding bucket_cfg
bucket_cfg-IsLimit b (inl off) = inl (ap is_disabled off)
bucket_cfg-IsLimit b (inr (hb, hr)) = inr (
  limited (bucket_cfg b) (positive-natural b.burst hb),
  positive-natural b.burst hb,
  positive-natural b.sustained_per_min hr,
)

per_tool-IsLimit :
    (bs : List (Bytes × BucketLimit)) → AllUsable bs → All (λ e. IsLimit e.1) (per_tool bs)
unfolding per_tool
per_tool-IsLimit [] all = tt
per_tool-IsLimit ((tool, b) ∷ bs) all = (bucket_cfg-IsLimit b all.0, per_tool-IsLimit bs all.1)

unless_error-ok : (o : Option ConfigError) → unless_error o ≡ ok tt → o ≡ none
unless_error-ok none h = refl
unless_error-ok (some e) h = absurd (ground (arith, h))

append-nil : (xs ys : List Bytes) → xs ++ ys ≡ [] → xs ≡ []
append-nil [] ys h = refl
append-nil (x ∷ xs) ys h = absurd (ground (arith, h))

all_registered :
    {V : Type 0} (registered : Bytes → Bool) (key : Bytes) (m : List (Bytes × V))
    → unregistered registered key m ≡ []
    → All (λ e. registered e.0 ≡ true) m
unfolding unregistered
all_registered registered key [] h = tt
all_registered registered key ((tool, v) ∷ m) h = elim (Bool-cases (registered tool)) [
  | inl known ↦ (known, all_registered registered key m (ground (arith, h, known)))
  | inr unknown ↦ absurd (ground (arith, h, unknown))
]

if_unknown-none : (us sorted : List Bytes) → if_unknown us sorted ≡ none → us ≡ []
if_unknown-none [] sorted h = refl
if_unknown-none (u ∷ us) sorted h = absurd (ground (arith, h))

names_registered :
    (sort : List Bytes → List Bytes) (registered : Bytes → Bool) (d : Daemon)
    → validate_tool_names sort registered d ≡ none
    → All (λ e. registered e.0 ≡ true) d.expensive_tool_buckets
unfolding validate_tool_names
names_registered sort registered d h =
    all_registered registered (codes "expensive_tool_buckets.") d.expensive_tool_buckets
      (append-nil _ _ (append-nil _ _ (if_unknown-none _ _ h)))

per_tool-named :
    (registered : Bytes → Bool) (bs : List (Bytes × BucketLimit))
    → All (λ e. registered e.0 ≡ true) bs
    → All (λ e. registered e.0 ≡ true) (per_tool bs)
unfolding per_tool
per_tool-named registered [] all = tt
per_tool-named registered ((tool, b) ∷ bs) all = (all.0, per_tool-named registered bs all.1)

-- What a daemon that begins to serve was started with.
pub record IsSafe (k : Checks) (s : Started) : Type 0 where
  pub runnable : IsRunnable k.is_prefix k.is_addr s.config
  pub acknowledged :
      (bind_addr_is_public k.split_host k.is_private s.config ≡ false)
      ⊎ (s.config.public_bind_acknowledged ≡ true)
  pub limits : All (λ e. IsLimit e.1) s.limits
  pub named : All (λ e. is_registered k e.0 ≡ true) s.limits
  pub served : IsServed k s.enabled_set

refuse_if-ok : (b : Bool) (e : StartError) → refuse_if b e ≡ ok tt → b ≡ false
refuse_if-ok true e h = absurd (ground (arith, h))
refuse_if-ok false e h = refl

acknowledged_if :
    (public ack : Bool) → (public && not ack) ≡ false → (public ≡ false) ⊎ (ack ≡ true)
acknowledged_if false ack h = inl refl
acknowledged_if true true h = inr refl
acknowledged_if true false h = absurd (ground (arith, h))

unit_ok : {E : Type 0} (m : Result E (Unit {0})) (u : Unit {0}) → m ≡ ok u → m ≡ ok tt
unit_ok m u h = h

load_daemon-IsRunnable :
    (k : Checks) (file : Decoded Daemon) (d : Daemon)
    → load_daemon k file ≡ ok d
    → IsRunnable k.is_prefix k.is_addr d
unfolding load_daemon
load_daemon-IsRunnable k file d h =
    let (a, _, h1) = bind-eq-ok (loaded (decode_strict file)) _ h in
    let (u, valid, h2) = bind-eq-ok (unless_error (validate k.is_prefix k.is_addr a)) _ h1 in
    subst (λ (x : Daemon). IsRunnable k.is_prefix k.is_addr x) (ground (arith, h2))
      (validate-IsRunnable k.is_prefix k.is_addr a
        (unless_error-ok (validate k.is_prefix k.is_addr a) valid))

pub start-IsSafe :
    (k : Checks) (daemon_yml : Decoded Daemon) (manifest_yml : Decoded Manifest) (s : Started)
    → start k daemon_yml manifest_yml ≡ ok s
    → IsSafe k s
unfolding start
start-IsSafe k daemon_yml manifest_yml s h =
    let (d, loads, h1) = bind-eq-ok (load_daemon k daemon_yml) _ h in
    let (_, private, h2) = bind-eq-ok (refuse_if _ _) _ h1 in
    let (m, _, h3) = bind-eq-ok (load_manifest k manifest_yml) _ h2 in
    let (_, _, h4) = bind-eq-ok (check_plugins k m.workload_plugins) _ h3 in
    let (_, names, h5) =
      bind-eq-ok (unless_error (validate_tool_names k.sort (is_registered k) d)) _ h4 in
    let (tools, enabled, h6) = bind-eq-ok (enabled_of k m.enabled_tools) _ h5 in
    let runnable = load_daemon-IsRunnable k daemon_yml d loads in
    subst (λ (x : Started). IsSafe k x) (ground (arith, h6))
      (record {
        runnable = runnable;
        acknowledged =
            acknowledged_if (bind_addr_is_public k.split_host k.is_private d)
              d.public_bind_acknowledged (refuse_if-ok _ _ private);
        limits = per_tool-IsLimit d.expensive_tool_buckets runnable.buckets;
        named = per_tool-named (is_registered k) d.expensive_tool_buckets (
            names_registered k.sort (is_registered k) d
              (unless_error-ok (validate_tool_names k.sort (is_registered k) d) names));
        served = enabled_of-IsServed k m.enabled_tools tools enabled;
      })
