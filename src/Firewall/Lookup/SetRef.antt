-- ===== src/Firewall/Lookup/SetRef.antt =====
-- References of rules to sets in daemon/internal/helper/ops/firewall_lookup.go.
use host_health_mcp.Base.{
  ℕ, suc, ◌≡◌, refl, ◌∙◌, Bytes, text_eq, text_eq_refl, Bool, true, false, none, some, List, [],
  ◌∷◌, ◌++◌, if◌then◌else◌, arith, Option-cases, inl, inr,
}
use host_health_mcp.Base.Eq.{bytes_eq}
use host_health_mcp.Base.Assoc
use host_health_mcp.Firewall.{Std}
use host_health_mcp.Firewall.Nft.{NftSet, NftEntry, set_of, stringify_type}
use host_health_mcp.Firewall.Address.{LookupQuery, set_type_matches_query}
use host_health_mcp.Firewall.Lookup.{
  Sets, is_some, not_empty, element_hit, element_hits, index_set, key_of, index_sets,
}
use host_health_mcp.Firewall.Lookup.Rules.{set_ref, set_ref_hit, text_side, evaluate_right_side}

module _ {Raw A P : Type 0} (std : Std Raw A P) (q : LookupQuery A P) where
  -- Some element of a list overlaps the query.
  abbrev pub any_overlaps : NftSet Raw → List Raw → Bool
  any_overlaps s [] = false
  any_overlaps s (raw ∷ raws) =
      if is_some (element_hit std q s raw) then true else any_overlaps s raws

  not_empty-element_hits :
      (s : NftSet Raw) (raws : List Raw)
      → not_empty (element_hits std q s raws) ≡ any_overlaps s raws
  unfolding element_hits
  not_empty-element_hits s [] = refl
  not_empty-element_hits s (raw ∷ raws) = elim (Option-cases (element_hit std q s raw)) [
    | inl none_here ↦ rw (none_here, element_hits) (not_empty-element_hits s raws)
    | inr (h, found) ↦ rw (found, element_hits) refl
  ]

  -- No later set takes the place of one under the same key.
  abbrev pub NotReplaced : Bytes → List (NftEntry Raw) → Type 0
  NotReplaced k [] = Unit {0}
  NotReplaced k (e ∷ es) =
      ((s : NftSet Raw) → set_of e ≡ some s → text_eq (key_of std q s) k ≡ false) × NotReplaced k es

  index_sets-kept :
      (include : Bool) (k : Bytes) (es : List (NftEntry Raw)) (sets : Sets) (n : ℕ)
      → NotReplaced k es
      → Assoc.lookup k (index_sets std q include es (sets, n)).0 ≡ Assoc.lookup k sets
  unfolding index_sets
  index_sets-kept include k [] sets n h = refl
  index_sets-kept include k (e ∷ es) sets n h = elim (Option-cases (set_of e)) [
    | inl no_set ↦ rw (no_set, index_sets) (index_sets-kept include k es sets n h.1)
    | inr (s, here) ↦
        rw (here, index_sets)
          (index_sets-kept include k es _ (suc n) h.1
            ∙ Assoc.lookup-insert (key_of std q s) k (index_set std q include s) sets
            ∙ rw (h.0 s here) refl)
  ]

  -- The set that an entry declares is found under its key, whatever stands before and after it, if
  -- no later set has that key.
  lookup-index_sets :
      (include : Bool) (pre post : List (NftEntry Raw)) (e : NftEntry Raw) (s : NftSet Raw)
      (sets : Sets) (n : ℕ)
      → set_of e ≡ some s
      → NotReplaced (key_of std q s) post
      → Assoc.lookup (key_of std q s) (index_sets std q include (pre ++ (e ∷ post)) (sets, n)).0
        ≡ some (index_set std q include s)
  unfolding index_sets
  lookup-index_sets include [] post e s sets n here h =
      rw (here, index_sets)
        (index_sets-kept include (key_of std q s) post _ (suc n) h
          ∙ Assoc.lookup-insert (key_of std q s) (key_of std q s) (index_set std q include s) sets
          ∙ rw (text_eq_refl (key_of std q s)) refl)
  lookup-index_sets include (d ∷ pre) post e s sets n here h = elim (Option-cases (set_of d)) [
    | inl no_set ↦ rw (no_set, index_sets) (lookup-index_sets include pre post e s sets n here h)
    | inr (t, other) ↦
        rw (other, index_sets) (lookup-index_sets include pre post e s _ (suc n) here h)
  ]

  -- A rule that refers to a set of its table by "@name" is hit exactly if the set's type is of the
  -- query's family and one of its elements overlaps the query, whether elements are asked for or
  -- not, and wherever in the ruleset the set stands, if no later set has its key.
  pub set_ref_lem :
      (include : Bool) (pre post : List (NftEntry Raw)) (e : NftEntry Raw) (s : NftSet Raw)
      (right : Raw)
      → set_of e ≡ some s
      → NotReplaced (key_of std q s) post
      → std.is_empty right ≡ false
      → std.as_text right ≡ some (b'@' ∷ s.name)
      → evaluate_right_side std q s.family s.table
          (index_sets std q include (pre ++ (e ∷ post)) ([], 0)).0
          right
        ≡ (if set_type_matches_query std (stringify_type std s.type_of) q
            then (if any_overlaps s s.elem
                then some
                    (record { set_name = s.name; matched_value = b'@' ∷ s.name; kind = set_ref })
                else none)
            else none)
  unfolding evaluate_right_side text_side
  set_ref_lem include pre post e s right here h full text =
      let found = lookup-index_sets include pre post e s [] 0 here h in
      rw (full, text, evaluate_right_side) (referred _ found)
    where
      referred :
          (sets : Sets)
          → Assoc.lookup (key_of std q s) sets ≡ some (index_set std q include s)
          → set_ref_hit std q s.family s.table sets s.name ≡ (
              if set_type_matches_query std (stringify_type std s.type_of) q
              then (if any_overlaps s s.elem
                  then some
                      (record { set_name = s.name; matched_value = b'@' ∷ s.name; kind = set_ref })
                  else none)
              else none)
      referred sets f =
          unfold set_ref_hit in
          rw f (unfold index_set in ground (arith, not_empty-element_hits s s.elem))
