-- ===== src/Config/Valid.antt =====
-- Which configurations `Validate` of daemon/internal/daemon/config/config.go accepts.
use host_health_mcp.Base.{
  ℕ, zero, suc, ◌≡◌, ◌≢◌, ◌↔◌, refl, ap, Bytes, Bool, true, false, ◌&&◌, ◌||◌, Option, none, some,
  List, [], ◌∷◌, ◌⊎◌, inl, inr, All, arith, if◌then◌else◌,
}
use host_health_mcp.Base.Maybe.{or_else}
use host_health_mcp.Helper.Deadline.{ℤ, pos, negsuc, positive}
use host_health_mcp.Config.{
  BucketLimit, Daemon, ConfigError, is_empty, unless_positive, is_zero, is_disabled, no_limit,
  bad_burst, bad_rate, bad_handshakes, bad_range, bad_filter, check_bucket, check_buckets,
  check_each, valid_ip_filter_entry, validate,
}

abbrev pub IsPositive : ℤ → Type 0
IsPositive z = (n : ℕ) × (z ≡ pos (suc n))

-- A bucket limits its tool and lets some calls through, or it is disabled in so many words.
abbrev pub IsUsable : BucketLimit → Type 0
IsUsable b = (b.enabled ≡ some false) ⊎ (IsPositive b.burst × IsPositive b.sustained_per_min)

or_else-none : {E : Type 0} (a b : Option E) → or_else a b ≡ none → (a ≡ none) × (b ≡ none)
or_else-none none b h = (refl, h)
or_else-none (some e) b h = absurd (ground (arith, h))

unless_positive-IsPositive :
    (e : ConfigError) (z : ℤ) → unless_positive e (positive z) ≡ none → IsPositive z
unless_positive-IsPositive e (negsuc n) h = absurd (ground (arith, h))
unless_positive-IsPositive e (pos zero) h = absurd (ground (arith, h))
unless_positive-IsPositive e (pos (suc n)) h = (n, refl)

IsPositive-unless_positive :
    (e : ConfigError) (z : ℤ) → IsPositive z → unless_positive e (positive z) ≡ none
IsPositive-unless_positive e z (n, h) = rw h ground arith

if_none :
    {E : Type 0} (c : Bool) (x y : Option E)
    → (if c then x else y) ≡ none
    → ((c ≡ true) × (x ≡ none)) ⊎ ((c ≡ false) × (y ≡ none))
if_none true x y h = inl (refl, h)
if_none false x y h = inr (refl, h)

disabled_lem : (o : Option Bool) → is_disabled o ≡ true → o ≡ some false
disabled_lem none h = absurd (ground (arith, h))
disabled_lem (some true) h = absurd (ground (arith, h))
disabled_lem (some false) h = refl

check_bucket-IsUsable : (tool : Bytes) (b : BucketLimit) → check_bucket tool b ≡ none → IsUsable b
unfolding check_bucket
check_bucket-IsUsable tool b h = elim (if_none (is_disabled b.enabled) _ _ h) [
  | inl (d, _) ↦ inl (disabled_lem b.enabled d)
  | inr (_, h') ↦ elim (if_none (is_zero b.sustained_per_min && is_zero b.burst) _ _ h') [
    | inl (_, e) ↦ absurd (ground (arith, e))
    | inr (_, h'') ↦
        let (hb, hr) = or_else-none _ _ h'' in
        inr (
          unless_positive-IsPositive (bad_burst tool) b.burst hb,
          unless_positive-IsPositive (bad_rate tool) b.sustained_per_min hr,
        )
  ]
]

or_else_of_none : {E : Type 0} (a b : Option E) → a ≡ none → b ≡ none → or_else a b ≡ none
or_else_of_none none b h k = k
or_else_of_none (some e) b h k = h

both_positive :
    (tool : Bytes) (burst rate : ℤ)
    → IsPositive burst
    → IsPositive rate
    → (if is_zero rate && is_zero burst
        then some (no_limit tool)
        else or_else
            (unless_positive (bad_burst tool) (positive burst))
            (unless_positive (bad_rate tool) (positive rate)))
      ≡ none
both_positive tool burst rate (b, hb) (r, hr) = rw (hb, hr) ground arith

abbrev limits : Bytes → BucketLimit → Option ConfigError
limits tool b =
    if is_zero b.sustained_per_min && is_zero b.burst
    then some (no_limit tool)
    else or_else (unless_positive (bad_burst tool) (positive b.burst))
        (unless_positive (bad_rate tool) (positive b.sustained_per_min))

none_if : (c : Bool) (o : Option ConfigError) → o ≡ none → (if c then none else o) ≡ none
none_if true o h = refl
none_if false o h = h

IsUsable-check_bucket : (tool : Bytes) (b : BucketLimit) → IsUsable b → check_bucket tool b ≡ none
unfolding check_bucket
IsUsable-check_bucket tool b (inl off) =
    ap (λ c. if c then none else limits tool b) (ap is_disabled off)
IsUsable-check_bucket tool b (inr (hb, hr)) =
    none_if (is_disabled b.enabled) (limits tool b)
      (both_positive tool b.burst b.sustained_per_min hb hr)

abbrev pub AllUsable : List (Bytes × BucketLimit) → Type 0
AllUsable bs = All (λ e. IsUsable e.1) bs

check_buckets-AllUsable :
    (bs : List (Bytes × BucketLimit)) → (check_buckets bs ≡ none) ↔ AllUsable bs
unfolding check_buckets
check_buckets-AllUsable [] = (λ h. tt, λ h. refl)
check_buckets-AllUsable ((tool, b) ∷ bs) = (
  λ h.
      let (hb, hs) = or_else-none _ _ h in
      (check_bucket-IsUsable tool b hb, (check_buckets-AllUsable bs).0 hs),
  λ u. or_else_of_none _ _ (IsUsable-check_bucket tool b u.0) ((check_buckets-AllUsable bs).1 u.1),
)

check_each-All :
    (fine : Bytes → Bool) (e : ℕ → Bytes → ConfigError) (i : ℕ) (xs : List Bytes)
    → (check_each fine e i xs ≡ none) ↔ All (λ x. fine x ≡ true) xs
unfolding check_each
check_each-All fine e i [] = (λ h. tt, λ h. refl)
check_each-All fine e i (x ∷ xs) = (
  λ h. elim (if_none (fine x) _ _ h) [
    | inl (hx, hs) ↦ (hx, (check_each-All fine e (suc i) xs).0 hs)
    | inr (_, bad) ↦ absurd (ground (arith, bad))
  ],
  λ all. rw all.0 ((check_each-All fine e (suc i) xs).1 all.1),
)

is_empty-ne : (s : Bytes) → is_empty s ≡ false → s ≢ []
is_empty-ne [] h e = absurd (ground (arith, h))
is_empty-ne (c ∷ cs) h e = cc

ne-is_empty : (s : Bytes) → s ≢ [] → is_empty s ≡ false
ne-is_empty [] h = absurd (h refl)
ne-is_empty (c ∷ cs) h = refl

module _ (is_prefix is_addr : Bytes → Bool) where
  -- A daemon.yml with which the daemon may serve.
  pub record IsRunnable (d : Daemon) : Type 0 where
    pub bind_addr : d.bind_addr ≢ []
    pub tls_cert : d.tls_cert_path ≢ []
    pub tls_key : d.tls_key_path ≢ []
    pub client_ca : d.client_ca_path ≢ []
    pub handshakes : IsPositive d.max_concurrent_handshakes
    pub buckets : AllUsable d.expensive_tool_buckets
    pub ipv4 : All (λ r. is_prefix r ≡ true) d.ipv4_ranges
    pub ipv6 : All (λ r. is_prefix r ≡ true) d.ipv6_ranges
    pub filter : All (λ e. valid_ip_filter_entry is_prefix is_addr e ≡ true) d.ip_filter_allow

  pub validate-IsRunnable : (d : Daemon) → validate is_prefix is_addr d ≡ none → IsRunnable d
  unfolding validate
  validate-IsRunnable d h = elim (if_none (is_empty d.bind_addr) _ _ h) [
    | inl (_, e) ↦ absurd (ground (arith, e))
    | inr (bound, h1) ↦
        elim (if_none
          (is_empty d.tls_cert_path || is_empty d.tls_key_path || is_empty d.client_ca_path) _ _
          h1) [
            | inl (_, e) ↦ absurd (ground (arith, e))
            | inr (paths, h2) ↦
                let (hs, h3) = or_else-none _ _ h2 in
                let (bs, h4) = or_else-none _ _ h3 in
                let (v4, h5) = or_else-none _ _ h4 in
                let (v6, fs) = or_else-none _ _ h5 in
                record {
                  bind_addr = is_empty-ne d.bind_addr bound;
                  tls_cert = is_empty-ne d.tls_cert_path (ground (arith, paths));
                  tls_key = is_empty-ne d.tls_key_path (ground (arith, paths));
                  client_ca = is_empty-ne d.client_ca_path (ground (arith, paths));
                  handshakes =
                      unless_positive-IsPositive (bad_handshakes d.max_concurrent_handshakes)
                        d.max_concurrent_handshakes hs;
                  buckets = (check_buckets-AllUsable d.expensive_tool_buckets).0 bs;
                  ipv4 = (check_each-All is_prefix bad_range 0 d.ipv4_ranges).0 v4;
                  ipv6 = (check_each-All is_prefix bad_range 0 d.ipv6_ranges).0 v6;
                  filter =
                      (check_each-All (valid_ip_filter_entry is_prefix is_addr) bad_filter 0
                          d.ip_filter_allow).0
                        fs;
                }
          ]
  ]

  if_of_false :
      {E : Type 0} (c : Bool) (x y : Option E) → c ≡ false → y ≡ none → (if c then x else y) ≡ none
  if_of_false true x y h k = absurd (ground (arith, h))
  if_of_false false x y h k = k

  no_path_empty :
      (a b c : Bytes) → a ≢ [] → b ≢ [] → c ≢ [] → (is_empty a || is_empty b || is_empty c) ≡ false
  no_path_empty a b c ha hb hc = rw (ne-is_empty a ha, ne-is_empty b hb, ne-is_empty c hc) refl

  -- `Validate` accepts a configuration exactly if it has an address and the three paths, a positive
  -- number of handshakes, ranges that are prefixes, filter entries that are keywords, prefixes or
  -- addresses, and each bucket is disabled explicitly or has a positive burst and a positive rate.
  pub validate_iff : (d : Daemon) → (validate is_prefix is_addr d ≡ none) ↔ IsRunnable d
  unfolding validate
  validate_iff d = (
    validate-IsRunnable d,
    λ r. if_of_false (is_empty d.bind_addr) _ _ (ne-is_empty d.bind_addr r.bind_addr) (
        if_of_false
          (is_empty d.tls_cert_path || is_empty d.tls_key_path || is_empty d.client_ca_path) _ _
          (no_path_empty d.tls_cert_path d.tls_key_path d.client_ca_path r.tls_cert r.tls_key
            r.client_ca)
          (or_else_of_none _ _
            (IsPositive-unless_positive (bad_handshakes d.max_concurrent_handshakes)
              d.max_concurrent_handshakes r.handshakes)
            (or_else_of_none _ _ ((check_buckets-AllUsable d.expensive_tool_buckets).1 r.buckets) (
              or_else_of_none _ _ ((check_each-All is_prefix bad_range 0 d.ipv4_ranges).1 r.ipv4) (
                or_else_of_none _ _ ((check_each-All is_prefix bad_range 0 d.ipv6_ranges).1 r.ipv6)
                  ((check_each-All (valid_ip_filter_entry is_prefix is_addr) bad_filter 0
                      d.ip_filter_allow).1
                    r.filter)))))),
  )
