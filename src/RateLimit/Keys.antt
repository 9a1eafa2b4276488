-- ===== src/RateLimit/Keys.antt =====
-- The keys of `toolBkts` in daemon/internal/daemon/ratelimit/ratelimit.go: caller + ":" + tool.
use host_health_mcp.Base.{Bytes, [], ◌∷◌, ◌++◌, ◌≡◌, ◌≢◌, refl, ap, All}
use host_health_mcp.RateLimit.{tool_key}

abbrev pub NoColon : Bytes → Type 0
NoColon = All (λ c. c ≢ b':')

colon_inside : (c t : Bytes) → ¬ NoColon (c ++ (b':' ∷ t))
colon_inside [] t h = h.0 refl
colon_inside (x ∷ c) t h = colon_inside c t h.1

abbrev tail_of : Bytes → Bytes
tail_of [] = []
tail_of (_ ∷ xs) = xs

split_key :
    (c d t u : Bytes)
    → NoColon t
    → NoColon u
    → c ++ (b':' ∷ t) ≡ d ++ (b':' ∷ u)
    → (c ≡ d) × (t ≡ u)
split_key [] [] t u nt nu e = (refl, ap tail_of e)
split_key [] (y ∷ d) t u nt nu e = absurd (colon_inside d u (subst_tail (ap tail_of e) nt))
  where
    subst_tail : {a b : Bytes} → a ≡ b → NoColon a → NoColon b
    subst_tail p h = rw p at h
split_key (x ∷ c) [] t u nt nu e = absurd (colon_inside c t (rw (← (ap tail_of e)) at nu))
split_key (x ∷ c) (y ∷ d) t u nt nu e =
    let rest = split_key c d t u nt nu (ap tail_of e) in (cc (rest.0), rest.1)

pub tool_key-injective :
    (c d t u : Bytes) → NoColon t → NoColon u → tool_key c t ≡ tool_key d u → (c ≡ d) × (t ≡ u)
unfolding tool_key
tool_key-injective = split_key
