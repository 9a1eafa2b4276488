-- ===== src/Redact/Rules.antt =====
-- `LoadRuleFile` of daemon/internal/daemon/redact/redact.go, and what daemon/cmd/daemon/main.go makes of
-- its errors.
-- The file is what stat, a read and the strict YAML decoder answer of it; `trim` is strings.TrimSpace and
-- `compile` regexp.Compile.
use host_health_mcp.Base.{
  ◌≡◌, ◌≢◌, refl, sym, ap, subst, ◌∙◌, ◌⊎◌, inl, inr, ℕ, suc, Bytes, Option, none, some, List, [],
  ◌∷◌, map, ltb, All, arith, if◌then◌else◌,
}
use host_health_mcp.Base.Result.{Result, ok, err, ◌>>=◌, bind-eq-ok}
use host_health_mcp.Redact.{Matcher}

pub data RuleError : Type 0 where
  absent : RuleError
  not_statted : Bytes → RuleError
  too_big : ℕ → RuleError
  not_read : Bytes → RuleError
  not_parsed : Bytes → RuleError
  empty_pattern : ℕ → RuleError
  not_compiled : ℕ → Bytes → RuleError

-- What decoding ends with: nothing, io.EOF, or another error.
pub data DecodeEnd : Type 0 where
  decoded : DecodeEnd
  no_document : DecodeEnd
  failed : Bytes → DecodeEnd

pub record RuleSource : Type 0 where
  pub stat : Result RuleError ℕ
  pub read : Result RuleError Bytes
  pub decode : Bytes → List Bytes × DecodeEnd

abbrev pub max_rule_file_bytes : ℕ
max_rule_file_bytes = 65_536

abbrev pub within_cap : ℕ → Result RuleError (Unit {0})
within_cap size = if ltb max_rule_file_bytes size then err (too_big size) else ok tt

abbrev pub patterns_of : List Bytes × DecodeEnd → Result RuleError (List Bytes)
patterns_of (ps, decoded) = ok ps
patterns_of (ps, no_document) = ok ps
patterns_of (ps, failed e) = err (not_parsed e)

ok-injective : {E A : Type 0} (a b : A) → (let r : Result E A = ok a in r) ≡ ok b → a ≡ b
ok-injective a b h = cc (h)

module _ (trim : Bytes → Bytes) (compile : Bytes → Result Bytes (Matcher Bytes)) where
  abbrev not_blank : ℕ → Bytes → Result RuleError (Unit {0})
  not_blank i [] = err (empty_pattern i)
  not_blank i (c ∷ cs) = ok tt

  abbrev compiled : ℕ → Result Bytes (Matcher Bytes) → Result RuleError (Matcher Bytes)
  compiled i (ok re) = ok re
  compiled i (err e) = err (not_compiled i e)

  unfoldable pub compile_all : ℕ → List Bytes → Result RuleError (List (Matcher Bytes))
  compile_all i [] = ok []
  compile_all i (p ∷ ps) = do
    _ ← not_blank i (trim p)
    re ← compiled i (compile p)
    rest ← compile_all (suc i) ps
    ok (re ∷ rest)

  unfoldable pub load_present : RuleSource → Result RuleError (List (Matcher Bytes))
  load_present file = do
    size ← file.stat
    _ ← within_cap size
    bytes ← file.read
    ps ← patterns_of (file.decode bytes)
    compile_all 0 ps

  abbrev at_path : RuleSource → Bytes → Result RuleError (List (Matcher Bytes))
  at_path file [] = ok []
  at_path file (c ∷ cs) = load_present file

  unfoldable pub load_rule_file : Bytes → RuleSource → Result RuleError (List (Matcher Bytes))
  load_rule_file path file = at_path file (trim path)

  -- The patterns that a daemon starts with; `none` is that it does not.
  unfoldable pub scrub_patterns_at_start :
      Result RuleError (List (Matcher Bytes)) → Option (List (Matcher Bytes))
  scrub_patterns_at_start (ok res) = some res
  scrub_patterns_at_start (err absent) = some []
  scrub_patterns_at_start (err e) = none

  compiled-ok :
      (i : ℕ) (r : Result Bytes (Matcher Bytes)) (re : Matcher Bytes)
      → compiled i r ≡ ok re
      → r ≡ ok re
  compiled-ok i (ok x) re h = cc (h)
  compiled-ok i (err e) re h = absurd (ground (arith, h))

  not_blank-ok : (i : ℕ) (s : Bytes) → not_blank i s ≡ ok tt → s ≢ []
  not_blank-ok i [] h e = absurd (ground (arith, h))
  not_blank-ok i (c ∷ cs) h e = cc (e)

  compile_all-map :
      (i : ℕ) (ps : List Bytes) (res : List (Matcher Bytes))
      → compile_all i ps ≡ ok res
      → (map compile ps ≡ map ok res) × All (λ p. trim p ≢ []) ps
  unfolding compile_all
  compile_all-map i [] res h = (ap (map ok) (ok-injective [] res h), tt)
  compile_all-map i (p ∷ ps) res h =
      let (_, filled, h1) = bind-eq-ok (not_blank i (trim p)) _ h in
      let (re, compiles, h2) = bind-eq-ok (compiled i (compile p)) _ h1 in
      let (rest, more, h3) = bind-eq-ok (compile_all (suc i) ps) _ h2 in
      let (same, all) = compile_all-map (suc i) ps rest more in
      (
        rw (compiled-ok i (compile p) re compiles, same)
            (ap (map ok) (ok-injective (re ∷ rest) res h3)),
        (not_blank-ok i (trim p) filled, all),
      )

  -- Every pattern of the file is in effect, in its place, and none is blank.
  abbrev pub InEffect : RuleSource → List (Matcher Bytes) → Type 0
  InEffect file res =
      (bytes : Bytes) × (file.read ≡ ok bytes)
      × (map compile (file.decode bytes).0 ≡ map ok res)
      × All (λ p. trim p ≢ []) (file.decode bytes).0

  patterns_of-ok : (d : List Bytes × DecodeEnd) (ps : List Bytes) → patterns_of d ≡ ok ps → d.0 ≡ ps
  patterns_of-ok (xs, decoded) ps h = ok-injective xs ps h
  patterns_of-ok (xs, no_document) ps h = ok-injective xs ps h
  patterns_of-ok (xs, failed e) ps h = absurd (ground (arith, h))

  load_present-InEffect :
      (file : RuleSource) (res : List (Matcher Bytes))
      → load_present file ≡ ok res
      → InEffect file res
  unfolding load_present
  load_present-InEffect file res h =
      let (size, _, h1) = bind-eq-ok file.stat _ h in
      let (_, _, h2) = bind-eq-ok (within_cap size) _ h1 in
      let (bytes, reads, h3) = bind-eq-ok file.read _ h2 in
      let (ps, decodes, h4) = bind-eq-ok (patterns_of (file.decode bytes)) _ h3 in
      let (same, all) = compile_all-map 0 ps res h4 in
      let found = patterns_of-ok (file.decode bytes) ps decodes in
      (bytes, reads, ap (map compile) found ∙ same, subst (All (λ p. trim p ≢ [])) (sym found) all)

  at_start :
      (r : Result RuleError (List (Matcher Bytes))) (res : List (Matcher Bytes))
      → scrub_patterns_at_start r ≡ some res
      → (r ≡ ok res) ⊎ ((r ≡ err absent) × (res ≡ []))
  unfolding scrub_patterns_at_start
  at_start (ok xs) res h = inl (cc (h))
  at_start (err absent) res h = inr (refl, cc (h))
  at_start (err _) res h = absurd (ground (arith, h))

  by_path :
      (path : Bytes) (file : RuleSource) (res : List (Matcher Bytes))
      → at_path file path ≡ ok res
      → ((res ≡ []) × (path ≡ [])) ⊎ InEffect file res
  by_path [] file res h = inl (sym (ok-injective [] res h), refl)
  by_path (c ∷ cs) file res h = inr (load_present-InEffect file res h)

  -- The patterns that a daemon starts with are all those of the rule file, compiled, in their order, none
  -- of them blank; or there are none, and no path is set or the file is absent.
  pub scrub_patterns-InEffect :
      (path : Bytes) (file : RuleSource) (res : List (Matcher Bytes))
      → scrub_patterns_at_start (load_rule_file path file) ≡ some res
      → ((res ≡ []) × ((trim path ≡ []) ⊎ (load_rule_file path file ≡ err absent)))
        ⊎ InEffect file res
  unfolding load_rule_file
  scrub_patterns-InEffect path file res h = elim (at_start (at_path file (trim path)) res h) [
    | inr (gone, nothing) ↦ inl (nothing, inr gone)
    | inl loaded ↦ elim (by_path (trim path) file res loaded) [
      | inl (nothing, no_path) ↦ inl (nothing, inl no_path)
      | inr effective ↦ inr effective
    ]
  ]
