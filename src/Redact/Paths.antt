-- ===== src/Redact/Paths.antt =====
-- `Paths` of daemon/internal/daemon/redact/redact.go: absolute paths in a message.
-- A match of `pathToken` lies in a token, a run between white space, which it begins; so the text is
-- read token by token.
use host_health_mcp.Base.{
  ◌≡◌, refl, sym, ap, subst, ◌∙◌, ℕ, Bytes, codes, Bool, true, false, ◌||◌, Option, none, some,
  List, [], ◌∷◌, ◌++◌, map, ◌==◌, All, append_assoc, append_nil, if◌then◌else◌, arith, ◌⊎◌, inl,
  inr, Bool-cases,
}

-- `\s`
abbrev pub is_space : ℕ → Bool
is_space c = c == b' ' || c == b'\t' || c == b'\n' || c == b'\r' || c == 12

abbrev pub is_punctuation : ℕ → Bool
is_punctuation c = c == b':' || c == b',' || c == b';' || c == b'.'

abbrev pub path_placeholder : Bytes
path_placeholder = codes "<path>"

-- The punctuation that ends a text, if it has anything before it.
unfoldable pub trailing : Bytes → Option Bytes
trailing [] = none
trailing (c ∷ cs) = elim (trailing cs) [
  | some rest ↦ some rest
  | none ↦ if is_punctuation c then none else some cs
]

abbrev pub replaced : Bytes → Option Bytes → Bytes
replaced token none = token
replaced token (some rest) = path_placeholder ++ rest

-- `/\S*[^\s:,;.]` at the beginning of a token.
unfoldable pub clean_token : Bytes → Bytes
clean_token [] = []
clean_token (c ∷ cs) = if c == b'/' then replaced (c ∷ cs) (trailing cs) else c ∷ cs

unfoldable pub clean_from : Bytes → Bytes → Bytes
clean_from token [] = clean_token token
clean_from token (c ∷ cs) =
    let next = clean_from [] cs in
    let more = clean_from (token ++ (c ∷ [])) cs in
    if is_space c then clean_token token ++ (c ∷ next) else more

unfoldable pub paths : Bytes → Bytes
paths s = clean_from [] s

abbrev onto_first : ℕ → List Bytes → List Bytes
onto_first c [] = (c ∷ []) ∷ []
onto_first c (t ∷ ts) = (c ∷ t) ∷ ts

-- The tokens of a text, empty ones between adjacent blanks included.
unfoldable pub tokens : Bytes → List Bytes
tokens [] = [] ∷ []
tokens (c ∷ cs) = let rest = tokens cs in if is_space c then [] ∷ rest else onto_first c rest

abbrev HasNoSpace : Bytes → Type 0
HasNoSpace = All (λ c. is_space c ≡ false)

tokens-append :
    (t : Bytes) (c : ℕ) (s : Bytes)
    → HasNoSpace t
    → is_space c ≡ true
    → tokens (t ++ c ∷ s) ≡ t ∷ tokens s
unfolding tokens
tokens-append [] c s h space = rw space refl
tokens-append (x ∷ t) c s h space = rw (h.0, tokens-append t c s h.1 space) refl

tokens_one : (t : Bytes) → HasNoSpace t → tokens t ≡ t ∷ []
unfolding tokens
tokens_one [] h = refl
tokens_one (x ∷ t) h = rw (h.0, tokens_one t h.1) refl

HasNoSpace-append : (s t : Bytes) → HasNoSpace s → HasNoSpace t → HasNoSpace (s ++ t)
HasNoSpace-append [] t h k = k
HasNoSpace-append (c ∷ s) t h k = (h.0, HasNoSpace-append s t h.1 k)

abbrev EachNoSpace : Option Bytes → Type 0
EachNoSpace none = Unit {0}
EachNoSpace (some s) = HasNoSpace s

trailing-HasNoSpace : (s : Bytes) → HasNoSpace s → EachNoSpace (trailing s)
unfolding trailing
trailing-HasNoSpace [] h = tt
trailing-HasNoSpace (c ∷ cs) h = from (trailing cs) (trailing-HasNoSpace cs h.1)
  where
    choose : (b : Bool) → EachNoSpace (if b then none else some cs)
    choose true = tt
    choose false = h.1

    from :
        (o : Option Bytes)
        → EachNoSpace o
        → EachNoSpace
            (elim o [ some rest ↦ some rest | none ↦ if is_punctuation c then none else some cs ])
    from none k = choose (is_punctuation c)
    from (some rest) k = k

placeholder-HasNoSpace : HasNoSpace path_placeholder
placeholder-HasNoSpace = (refl, (refl, (refl, (refl, (refl, (refl, tt))))))

replaced-HasNoSpace :
    (t : Bytes) (o : Option Bytes) → HasNoSpace t → EachNoSpace o → HasNoSpace (replaced t o)
replaced-HasNoSpace t none h k = h
replaced-HasNoSpace t (some rest) h k =
    HasNoSpace-append path_placeholder rest placeholder-HasNoSpace k

clean_token-HasNoSpace : (t : Bytes) → HasNoSpace t → HasNoSpace (clean_token t)
unfolding clean_token
clean_token-HasNoSpace [] h = tt
clean_token-HasNoSpace (c ∷ cs) h = elim (Bool-cases (c == b'/')) [
  | inl slash ↦ rw slash (replaced-HasNoSpace (c ∷ cs) (trailing cs) h (trailing-HasNoSpace cs h.1))
  | inr other ↦ rw other h
]

clean_from-tokens :
    (token s : Bytes)
    → HasNoSpace token
    → tokens (clean_from token s) ≡ map clean_token (tokens (token ++ s))
unfolding clean_from
clean_from-tokens token [] h =
    tokens_one (clean_token token) (clean_token-HasNoSpace token h)
    ∙ sym (ap (map clean_token) (ap tokens (append_nil token) ∙ tokens_one token h))
clean_from-tokens token (c ∷ cs) h = elim (Bool-cases (is_space c)) [
  | inl space ↦ rw space (
      tokens-append (clean_token token) c (clean_from [] cs) (clean_token-HasNoSpace token h) space
      ∙ ap (◌∷◌ (clean_token token)) (clean_from-tokens [] cs tt)
      ∙ sym (ap (map clean_token) (tokens-append token c cs h space)))
  | inr inside ↦ rw inside (
      clean_from-tokens (token ++ (c ∷ [])) cs (HasNoSpace-append token (c ∷ []) h (inside, tt))
      ∙ ap (λ t. map clean_token (tokens t)) (append_assoc token (c ∷ []) cs))
]

-- A token that is no path: it does not begin with a slash, or holds punctuation alone behind it.
abbrev pub IsHarmless : Bytes → Type 0
IsHarmless [] = Unit {0}
IsHarmless (c ∷ cs) = ((c == b'/') ≡ false) ⊎ All (λ d. is_punctuation d ≡ true) cs

trailing-none : (s : Bytes) → trailing s ≡ none → All (λ d. is_punctuation d ≡ true) s
unfolding trailing
trailing-none [] h = tt
trailing-none (c ∷ cs) h = from (trailing-none cs) (trailing cs) refl h
  where
    choose : (b : Bool) → (if b then none else some cs) ≡ none → b ≡ true
    choose true h = refl
    choose false h = absurd (ground (arith, h))

    from :
        (trailing cs ≡ none → All (λ d. is_punctuation d ≡ true) cs)
        → (o : Option Bytes) → trailing cs ≡ o
        → elim o [ some rest ↦ some rest | none ↦ if is_punctuation c then none else some cs ]
          ≡ none
        → All (λ d. is_punctuation d ≡ true) (c ∷ cs)
    from ih none e k = (choose (is_punctuation c) k, ih e)
    from ih (some rest) e k = absurd (ground (arith, k))

replaced-IsHarmless :
    (c : ℕ) (cs : Bytes) (o : Option Bytes) → trailing cs ≡ o → IsHarmless (replaced (c ∷ cs) o)
replaced-IsHarmless c cs none e = inr (trailing-none cs e)
replaced-IsHarmless c cs (some rest) e = inl refl

clean_token-IsHarmless : (t : Bytes) → IsHarmless (clean_token t)
unfolding clean_token
clean_token-IsHarmless [] = tt
clean_token-IsHarmless (c ∷ cs) = elim (Bool-cases (c == b'/')) [
  | inl slash ↦ rw slash (replaced-IsHarmless c cs (trailing cs) refl)
  | inr other ↦ rw other (inl other)
]

all_clean : (ts : List Bytes) → All IsHarmless (map clean_token ts)
all_clean [] = tt
all_clean (t ∷ ts) = (clean_token-IsHarmless t, all_clean ts)

-- In what `Paths` returns no token is a slash with anything but punctuation behind it. It has a token for
-- each token of the text, in their order, as `clean_token` leaves it.
pub paths-IsHarmless :
    (s : Bytes)
    → All IsHarmless (tokens (paths s)) × (tokens (paths s) ≡ map clean_token (tokens s))
unfolding paths
paths-IsHarmless s =
    let same = clean_from-tokens [] s tt in
    (subst (All IsHarmless) (sym same) (all_clean (tokens s)), same)
