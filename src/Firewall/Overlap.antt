-- ===== src/Firewall/Overlap.antt =====
-- What the tests of daemon/internal/helper/ops/firewall_lookup.go against a query mean, given what
-- net/netip documents: an address has a number in its family, `==` and `Compare` go by family and
-- number, and a masked prefix contains the numbers of one block of its family.
use host_health_mcp.Base.{
  ℕ, ◌+◌, ◌≤◌, ◌<◌, ◌≡◌, refl, sym, ◌∙◌, ap, Bool, true, false, ◌&&◌, ◌||◌, ◌↔◌, ◌⊎◌, inl, inr,
  arith, Bool-cases, leb, leb→le, if◌then◌else◌,
}
use host_health_mcp.Firewall.{Std}
use host_health_mcp.Firewall.Address.{
  LookupQuery, one, block, differ, addr_matches_query, prefix_matches_query, range_matches_query,
}

pub record IsNetip {Raw A P : Type 0} (std : Std Raw A P) : Type 0 where
  pub num : A → ℕ
  pub size : P → ℕ
  pub same_iff : (a b : A) → (std.same a b ≡ true) ↔ (a ≡ b)
  pub num_inj : (a b : A) → std.is6 a ≡ std.is6 b → num a ≡ num b → a ≡ b
  pub at_most_iff : (a b : A) → std.is6 a ≡ std.is6 b → (std.at_most a b ≡ true) ↔ (num a ≤ num b)
  pub is6_masked : (p : P) → std.is6 (std.addr_of (std.masked p)) ≡ std.is6 (std.addr_of p)
  pub size_pos : (p : P) → 0 < size p
  pub contains_iff :
      (p : P) (a : A)
      → (std.contains (std.masked p) a ≡ true) ↔ (
          (std.is6 (std.addr_of p) ≡ std.is6 a)
          × (num (std.addr_of (std.masked p)) ≤ num a)
          × (num a < num (std.addr_of (std.masked p)) + size p))

-- A test behind a test of the families.
guard_iff : (a b t : Bool) → ((if differ a b then false else t) ≡ true) ↔ ((a ≡ b) × (t ≡ true))
guard_iff true true t = ground arith
guard_iff true false t = ground arith
guard_iff false true t = ground arith
guard_iff false false t = ground arith

guards_iff :
    (a b c t : Bool)
    → ((if differ a c || differ b c then false else t) ≡ true) ↔ ((a ≡ c) × (b ≡ c) × (t ≡ true))
guards_iff true true true t = ground arith
guards_iff true false true t = ground arith
guards_iff false b true t = ground arith
guards_iff true b false t = ground arith
guards_iff false true false t = ground arith
guards_iff false false false t = ground arith

either : (s t : Bool) → (s || t) ≡ true → (s ≡ true) ⊎ (t ≡ true)
either s t h = ground (arith, h)

module _ {Raw A P : Type 0} (std : Std Raw A P) (net : IsNetip std) where
  -- The addresses of a prefix, of a range and of a query.
  abbrev pub InPrefix : P → A → Type 0
  InPrefix p x = std.contains (std.masked p) x ≡ true

  abbrev pub InRange : A → A → A → Type 0
  InRange lo hi x = (std.is6 x ≡ std.is6 lo) × (net.num lo ≤ net.num x) × (net.num x ≤ net.num hi)

  -- A query as `parseLookupQuery` makes it: its prefix is a masked one.
  pub data Query : Type 0 where
    address : A → Query
    cidr : P → Query

  abbrev pub query : Query → LookupQuery A P
  query (address a) = one a
  query (cidr p) = block (std.masked p)

  abbrev pub InQuery : Query → A → Type 0
  InQuery (address a) x = x ≡ a
  InQuery (cidr p) x = InPrefix p x

  differ_iff : (a b : Bool) → (differ a b ≡ false) ↔ (a ≡ b)
  differ_iff true true = ground arith
  differ_iff true false = ground arith
  differ_iff false true = ground arith
  differ_iff false false = ground arith

  -- A single address matches exactly if the query has it.
  addr_matches_query_iff :
      (a : A) (q : Query) → (addr_matches_query std a (query q) ≡ true) ↔ InQuery q a
  unfolding addr_matches_query
  addr_matches_query_iff a (address b) = (
    λ h. (net.same_iff a b).0 (ground (arith, h)),
    λ e.
        ground
          (arith, (differ_iff (std.is6 a) (std.is6 b)).1 (ap std.is6 e), (net.same_iff a b).1 e),
  )
  addr_matches_query_iff a (cidr p) = ground (
    arith,
    net.contains_iff p a,
    differ_iff (std.is6 a) (std.is6 (std.addr_of (std.masked p))),
    net.is6_masked p,
  )

  -- A prefix has its own first address.
  first_in : (p : P) → InPrefix p (std.addr_of (std.masked p))
  first_in p =
      (net.contains_iff p (std.addr_of (std.masked p))).1
        (sym (net.is6_masked p), omega arith, omega (arith, net.size_pos p))

  -- Of two prefixes with an address in common one has the first address of the other.
  first_shared :
      (p q : P) (x : A)
      → InPrefix p x
      → InPrefix q x
      → (InPrefix p (std.addr_of (std.masked q))) ⊎ (InPrefix q (std.addr_of (std.masked p)))
  first_shared p q x hp hq =
      let (fp, lp, up) = (net.contains_iff p x).0 hp in
      let (fq, lq, uq) = (net.contains_iff q x).0 hq in
      let mp = net.is6_masked p in
      let mq = net.is6_masked q in
      let n = net.num (std.addr_of (std.masked p)) in
      let m = net.num (std.addr_of (std.masked q)) in
      elim (Bool-cases (leb n m)) [
        | inl le ↦ inl (
            (net.contains_iff p (std.addr_of (std.masked q))).1
              (cc, leb→le n m le, omega (arith, up, lq)))
        | inr gt ↦ inr (
            (net.contains_iff q (std.addr_of (std.masked p))).1
              (cc, ground (arith, gt), omega (arith, uq, lp)))
      ]

  -- A prefix matches exactly if it has an address in common with the query.
  prefix_matches_query_iff :
      (p : P) (q : Query)
      → (prefix_matches_query std p (query q) ≡ true) ↔ ((x : A) × InPrefix p x × InQuery q x)
  unfolding prefix_matches_query
  prefix_matches_query_iff p (address b) = (
    λ h. (b, ((guard_iff (std.is6 (std.addr_of p)) (std.is6 b) _).0 h).1, refl),
    λ z.
        let here : InPrefix p b = rw (← z.2) z.1 in
        (guard_iff _ _ _).1 (((net.contains_iff p b).0 here).0, here),
  )
  prefix_matches_query_iff p (cidr q) = (
    λ h.
        elim (either _ _
          ((guard_iff (std.is6 (std.addr_of p)) (std.is6 (std.addr_of (std.masked q))) _).0 h).1) [
            | inl l ↦ (std.addr_of (std.masked q), l, first_in q)
            | inr r ↦ (std.addr_of (std.masked p), first_in p, r)
          ],
    λ z.
        let fp = ((net.contains_iff p z.0).0 z.1).0 in
        let fq = ((net.contains_iff q z.0).0 z.2).0 in
        (guard_iff _ _ _).1 (
          fp ∙ sym fq ∙ sym (net.is6_masked q),
          elim (first_shared p q z.0 z.1 z.2) [
            | inl l ↦ ground (arith, l)
            | inr r ↦ ground (arith, r)
          ],
        ),
  )

  -- A range whose ends are in order matches exactly if it has an address in common with the query.
  range_matches_query_iff :
      (lo hi : A) (q : Query)
      → std.is6 lo ≡ std.is6 hi
      → net.num lo ≤ net.num hi
      → (range_matches_query std lo hi (query q) ≡ true) ↔ ((x : A) × InRange lo hi x × InQuery q x)
  unfolding range_matches_query
  range_matches_query_iff lo hi (address b) f o = (
    λ h.
        let (fl, fh, both) = (guards_iff _ _ _ _).0 h in
        (
          b,
          (
            sym fl,
            (net.at_most_iff lo b fl).0 (ground (arith, both)),
            (net.at_most_iff b hi (sym fh)).0 (ground (arith, both)),
          ),
          refl,
        ),
    λ z.
        let (f', l, u) = z.1 in
        let fb : std.is6 lo ≡ std.is6 b = sym f' ∙ ap std.is6 z.2 in
        let le : net.num lo ≤ net.num b = omega (arith, l, ap net.num z.2) in
        let ge : net.num b ≤ net.num hi = omega (arith, u, ap net.num z.2) in
        (guards_iff _ _ _ _).1 (
          fb,
          sym f ∙ fb,
          ground (arith, (net.at_most_iff lo b fb).1 le, (net.at_most_iff b hi (sym fb ∙ f)).1 ge),
        ),
  )
  range_matches_query_iff lo hi (cidr q) f o =
      let first = std.addr_of (std.masked q) in
      let own = net.is6_masked q in
      (
        λ h.
            let (fl, fh, t) = (guards_iff _ _ _ _).0 h in
            elim (Bool-cases (std.contains (std.masked q) lo)) [
              | inl l ↦ (lo, (refl, omega arith, o), l)
              | inr no_lo ↦ elim (Bool-cases (std.contains (std.masked q) hi)) [
                | inl u ↦ (hi, (sym f, o, omega arith), u)
                | inr no_hi ↦
                    let both : (std.at_most lo first && std.at_most first hi) ≡ true =
                      rw (no_lo, no_hi) at t in
                    (
                      first,
                      (
                        sym fl,
                        (net.at_most_iff lo first fl).0 (ground (arith, both)),
                        (net.at_most_iff first hi (sym fh)).0 (ground (arith, both)),
                      ),
                      first_in q,
                    )
              ]
            ],
        λ z.
            let (f', l, u) = z.1 in
            let (fq, lq, uq) = (net.contains_iff q z.0).0 z.2 in
            let fl : std.is6 lo ≡ std.is6 first = sym f' ∙ sym fq ∙ sym own in
            (guards_iff _ _ _ _).1 (
              fl,
              sym f ∙ fl,
              elim (Bool-cases (leb (net.num first) (net.num lo))) [
                | inl after ↦
                    let inside =
                      (net.contains_iff q lo).1
                        (sym own ∙ sym fl, leb→le _ _ after, omega (arith, l, uq)) in
                    ground (arith, inside)
                | inr before ↦
                    let le = (net.at_most_iff lo first fl).1 (ground (arith, before)) in
                    let ge = (net.at_most_iff first hi (sym fl ∙ f)).1 (omega (arith, lq, u)) in
                    ground (arith, le, ge)
              ],
            ),
      )

  -- An address matches a query exactly if the query has it; a prefix, and a range whose ends are of
  -- one family and in order, match exactly if they have an address in common with the query.
  pub matches_query_iff :
      (q : Query)
      → ((a : A) → (addr_matches_query std a (query q) ≡ true) ↔ InQuery q a)
        × ((p : P)
            → (prefix_matches_query std p (query q) ≡ true)
              ↔ ((x : A) × InPrefix p x × InQuery q x))
        × ((lo hi : A)
            → std.is6 lo ≡ std.is6 hi
            → net.num lo ≤ net.num hi
            → (range_matches_query std lo hi (query q) ≡ true)
              ↔ ((x : A) × InRange lo hi x × InQuery q x))
  matches_query_iff q = (
    λ a. addr_matches_query_iff a q,
    λ p. prefix_matches_query_iff p q,
    λ lo hi. range_matches_query_iff lo hi q,
  )
