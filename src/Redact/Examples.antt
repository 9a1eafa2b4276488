-- ===== src/Redact/Examples.antt =====
-- daemon/internal/daemon/redact/redact.go at concrete tokens, with numbers as addresses.
use host_health_mcp.Base.{All, map}
use host_health_mcp.Base.Result.{Result, ok, err}
use host_health_mcp.Redact.Paths.{
  IsHarmless, tokens, paths, clean_from, clean_token, trailing, paths-IsHarmless,
}
use host_health_mcp.Redact.Rules.{
  RuleSource, decoded, absent, load_rule_file, load_present, compile_all, scrub_patterns_at_start,
  InEffect, scrub_patterns-InEffect,
}
use host_health_mcp.Base.{
  ℕ, ◌≡◌, ◌⊎◌, refl, Bytes, codes, text_eq, true, false, Option, none, some, List, [], ◌∷◌, ◌==◌,
}
use host_health_mcp.Redact.{
  Matcher, Filter, any_matches, has_prefix, after_equals, in_sensitive_dir, has_at_or_dot,
  token_safe, shape_safe, redact, join,
}

abbrev filter : Filter ℕ
filter = record {
  scrub_patterns = text_eq (codes "albert") ∷ [];
  ipv4_allow = (λ a. a == 7) ∷ [];
  ipv6_allow = [];
  sensitive_dirs = codes "/etc/ssl" ∷ [];
  aws_key = λ t. false;
  jwt = λ t. false;
  uuid = λ t. false;
  big_blob = λ t. false;
  safe_token = λ t. true;
}

abbrev parse : Bytes → Option ℕ
parse (c ∷ []) = some c
parse _ = none

abbrev whole : Bytes → List Bytes
whole s = s ∷ []

value_scrubbed :
    redact parse (λ a. true) (λ a. false) whole filter (codes "k=/etc/ssl/a") ≡ codes "<redacted>"
unfolding redact join token_safe any_matches shape_safe in_sensitive_dir has_prefix after_equals
    has_at_or_dot text_eq
value_scrubbed = refl

-- The colon behind the path stays.
hides : paths (codes "open /etc/x.key: denied") ≡ codes "open <path>: denied"
unfolding paths clean_from clean_token trailing
hides = refl

paths-IsHarmless_example :
    let s = codes "open /etc/x.key: denied" in
    All IsHarmless (tokens (paths s)) × (tokens (paths s) ≡ map clean_token (tokens s))
paths-IsHarmless_example = paths-IsHarmless (codes "open /etc/x.key: denied")

abbrev equals : Bytes → Result Bytes (Matcher Bytes)
equals p = ok (text_eq p)

abbrev rule_file : RuleSource
rule_file = record { stat = ok 40; read = ok []; decode = λ _. (codes "secret" ∷ [], decoded) }

scrub_patterns-InEffect_example :
    ((text_eq (codes "secret") ∷ [] ≡ [])
      × ((codes "/rules" ≡ [])
          ⊎ (load_rule_file (λ s. s) equals (codes "/rules") rule_file ≡ err absent)))
    ⊎ InEffect (λ s. s) equals rule_file (text_eq (codes "secret") ∷ [])
unfolding load_rule_file load_present compile_all scrub_patterns_at_start
scrub_patterns-InEffect_example =
    scrub_patterns-InEffect (λ s. s) equals (codes "/rules") rule_file
      (text_eq (codes "secret") ∷ []) refl
