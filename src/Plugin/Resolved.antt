-- ===== src/Plugin/Resolved.antt =====
-- What `ResolveHost` of plugin/internal/client/client.go returns.
use host_health_mcp.Base.{
  ℕ, zero, suc, ◌+◌, ◌≡◌, refl, sym, ap, ◌∙◌, subst, Bytes, Bool, true, false, not, ◌&&◌, Option,
  none, some, [], ◌∷◌, ◌++◌, arith, ◌==◌, ==_iff, inl, inr, Bool-cases, append_assoc, append_nil,
  if◌then◌else◌,
}
use host_health_mcp.Base.Result.{Result, ok, bind-eq-ok}
use host_health_mcp.Helper.Deadline.{ℤ}
use host_health_mcp.Plugin.Host.{
  HostError, Config, count_byte, after_close, bracketed, by_colons, host_has_port, starts_bracket,
  is_bare_ipv6, port_or_default, suffixed, in_brackets, with_port, resolve_host, is_zero,
}

count_byte-append :
    (b : ℕ) (xs ys : Bytes) → count_byte b (xs ++ ys) ≡ count_byte b xs + count_byte b ys
unfolding count_byte
count_byte-append b [] ys = omega arith
count_byte-append b (c ∷ cs) ys = ground (arith, count_byte-append b cs ys)

count_byte-same : (b : ℕ) (xs : Bytes) → count_byte b (b ∷ xs) ≡ suc (count_byte b xs)
unfolding count_byte
count_byte-same b xs = ground arith

after_close-append : (xs ys : Bytes) → after_close xs ≡ some [] → after_close (xs ++ ys) ≡ some ys
unfolding after_close
after_close-append [] ys h = ground (arith, h)
after_close-append (c ∷ cs) ys h = elim (Bool-cases (c == b']')) [
  | inl here ↦ let last : cs ≡ [] = ground (arith, here, h) in rw (here, last) refl
  | inr later ↦ rw later (after_close-append cs ys (ground (arith, later, h)))
]

abbrev IsPlain : Bytes → Type 0
IsPlain [] = ◌≡◌ {A = ℕ} 0 1
IsPlain (c ∷ cs) = ((c == b'[') ≡ false) × (count_byte b':' (c ∷ cs) ≡ 0)

in_brackets-IsPlain : (host : Bytes) → IsPlain host → in_brackets host ≡ host
unfolding is_bare_ipv6
in_brackets-IsPlain [] h = refl
in_brackets-IsPlain (c ∷ cs) (first, none_in) = rw (first, none_in) refl

has_port-IsPlain :
    (host port : Bytes)
    → IsPlain host
    → count_byte b':' port ≡ 0
    → host_has_port (host ++ (b':' ∷ port)) ≡ ok true
unfolding host_has_port
has_port-IsPlain [] port h p = absurd (omega (arith, h))
has_port-IsPlain (c ∷ cs) port (first, none_in) p =
    let once : count_byte b':' (c ∷ cs ++ (b':' ∷ port)) ≡ 1 = omega (
      arith,
      count_byte-append b':' (c ∷ cs) (b':' ∷ port),
      count_byte-same b':' port,
      none_in,
      p,
    ) in
    rw (first, once) refl

IsPlain-suffixed :
    (suffix host : Bytes)
    → IsPlain host
    → count_byte b':' suffix ≡ 0
    → (IsPlain (suffixed suffix host)) × (rest : Bytes) × (suffixed suffix host ≡ host ++ rest)
unfolding count_byte
IsPlain-suffixed [] host h s = (h, [], sym (append_nil host))
IsPlain-suffixed (d ∷ ds) host h s =
    elim (Bool-cases (is_zero (count_byte b'.' host) && not (starts_bracket host))) [
      | inl bare ↦ rw bare (IsPlain-append host h, b'.' ∷ d ∷ ds, refl)
      | inr dotted ↦ rw dotted (h, [], sym (append_nil host))
    ]
  where
    no_colon : count_byte b':' (b'.' ∷ d ∷ ds) ≡ 0
    no_colon = s

    IsPlain-append : (host : Bytes) → IsPlain host → IsPlain (host ++ (b'.' ∷ d ∷ ds))
    IsPlain-append [] h = absurd (omega (arith, h))
    IsPlain-append (c ∷ cs) (first, none_in) =
        (first, omega (arith, count_byte-append b':' (c ∷ cs) (b'.' ∷ d ∷ ds), none_in, no_colon))

-- The forms of a host that has no port of its own.
data NoPort : Bytes → Type 0 where
  plain : {host : Bytes} → IsPlain host → NoPort host
  literal : {cs : Bytes} → after_close (b'[' ∷ cs) ≡ some [] → NoPort (b'[' ∷ cs)

bracketed-false : (o : Option Bytes) → bracketed o ≡ ok false → o ≡ some []
bracketed-false none h = ground (arith, h)
bracketed-false (some []) h = refl
bracketed-false (some (c ∷ cs)) h = ground (arith, h)

by_colons-false : (n : ℕ) → by_colons n ≡ ok false → n ≡ 0
by_colons-false zero h = refl
by_colons-false (suc zero) h = ground (arith, h)
by_colons-false (suc (suc n)) h = ground (arith, h)

NoPort-host_has_port : (host : Bytes) → host_has_port host ≡ ok false → NoPort host
unfolding host_has_port
NoPort-host_has_port [] h = ground (arith, h)
NoPort-host_has_port (c ∷ cs) h = elim (Bool-cases (c == b'[')) [
  | inl first ↦
      let is : c ≡ b'[' = (==_iff c b'[').0 first in
      let closed : after_close (c ∷ cs) ≡ some [] = bracketed-false _ (rw first at h) in
      subst (λ (d : ℕ). after_close (d ∷ cs) ≡ some [] → NoPort (d ∷ cs)) (sym is) (λ e. literal e)
        closed
  | inr other ↦ plain (other, by_colons-false _ (rw other at h))
]

suffixed-literal : (suffix cs : Bytes) → suffixed suffix (b'[' ∷ cs) ≡ b'[' ∷ cs
suffixed-literal [] cs = refl
suffixed-literal (d ∷ ds) cs = elim (Bool-cases (is_zero (count_byte b'.' (b'[' ∷ cs)))) [
  | inl no_dot ↦ rw no_dot refl
  | inr dotted ↦ rw dotted refl
]

in_brackets-literal : (cs : Bytes) → in_brackets (b'[' ∷ cs) ≡ b'[' ∷ cs
unfolding is_bare_ipv6
in_brackets-literal cs = refl

has_port-literal :
    (cs port : Bytes)
    → after_close (b'[' ∷ cs) ≡ some []
    → host_has_port (b'[' ∷ (cs ++ (b':' ∷ port))) ≡ ok true
unfolding host_has_port
has_port-literal cs port h = rw (after_close-append (b'[' ∷ cs) (b':' ∷ port) h) refl

module _ (int_text : ℤ → Bytes) (cfg : Config) where
  -- What a resolved host is: the host asked for with more behind it, and a port.
  abbrev pub IsResolved : Bytes → Bytes → Type 0
  IsResolved host r =
      ((rest : Bytes) × (r ≡ host ++ rest))
      × (host_has_port r ≡ ok true)
      × (resolve_host int_text cfg r ≡ ok r)

  module _ (no_colon : count_byte b':' cfg.dns_suffix ≡ 0)
      (number : count_byte b':' (int_text (port_or_default cfg.port)) ≡ 0) where
    again : (r : Bytes) → host_has_port r ≡ ok true → resolve_host int_text cfg r ≡ ok r
    unfolding resolve_host
    again r h = rw h refl

    NoPort-IsResolved :
        (host : Bytes)
        → NoPort host
        → IsResolved host (with_port int_text cfg (suffixed cfg.dns_suffix host))
    NoPort-IsResolved host (plain h) =
        let port = b':' ∷ int_text (port_or_default cfg.port) in
        let (kept, rest, is) = IsPlain-suffixed cfg.dns_suffix host h no_colon in
        let made : with_port int_text cfg (suffixed cfg.dns_suffix host)
            ≡ suffixed cfg.dns_suffix host ++ port =
          ap (λ s. s ++ port) (in_brackets-IsPlain _ kept) in
        let has = has_port-IsPlain _ (int_text (port_or_default cfg.port)) kept number in
        rw made
          ((rest ++ port, ap (λ s. s ++ port) is ∙ append_assoc host rest port), has, again _ has)
    NoPort-IsResolved _ (literal {cs} h) =
        let number_text = int_text (port_or_default cfg.port) in
        let port = b':' ∷ number_text in
        let made : with_port int_text cfg (suffixed cfg.dns_suffix (b'[' ∷ cs))
            ≡ b'[' ∷ (cs ++ port) =
          ap (λ s. in_brackets s ++ port) (suffixed-literal cfg.dns_suffix cs)
          ∙ ap (λ s. s ++ port) (in_brackets-literal cs) in
        let has = has_port-literal cs number_text h in rw made ((port, refl), has, again _ has)

    -- What `ResolveHost` returns begins with the host that was asked for, has a port, and is resolved
    -- to itself, where neither the suffix nor the text of the port has a colon.
    pub resolve_host-IsResolved :
        (host r : Bytes) → resolve_host int_text cfg host ≡ ok r → IsResolved host r
    unfolding resolve_host
    resolve_host-IsResolved host r h =
        let (explicit, has, is) = bind-eq-ok (host_has_port host) _ h in by_port explicit has is
      where
        by_port :
            (explicit : Bool)
            → host_has_port host ≡ ok explicit
            → ◌≡◌ {A = Result HostError Bytes}
                (ok (
                  if explicit then host else with_port int_text cfg (suffixed cfg.dns_suffix host)))
                (ok r)
            → IsResolved host r
        by_port true has is =
            let same : host ≡ r = ground (arith, is) in
            subst (IsResolved host) same (([], sym (append_nil host)), has, again host has)
        by_port false has is =
            subst (IsResolved host) (ground (arith, is))
              (NoPort-IsResolved host (NoPort-host_has_port host has))
