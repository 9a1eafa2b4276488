-- ===== src/Parsers/AccessLog/Lines.antt =====
-- What daemon/internal/helper/ops/nginx_apache.go counts of the lines of a tail.
use host_health_mcp.Base.{
  ℕ, ◌+◌, ◌≡◌, ◌≢◌, refl, ap, ◌∙◌, Bytes, Bool, true, false, not, ◌&&◌, Option, none, some, List,
  [], ◌∷◌, ◌⊎◌, inl, inr, All, arith, Bool-cases, if◌then◌else◌,
}
use host_health_mcp.Helper.Deadline.{ℤ}
use host_health_mcp.Parsers.Int64.{◌≤ℤ◌, ltb_ℤ}
use host_health_mcp.Parsers.Scan.{Scan}
use host_health_mcp.Parsers.AccessLog.{
  Recent, no_recent, is_4xx, is_5xx, bucket, older, cutoff_of, extract_log_status,
  extract_log_timestamp, visit_stamped, count_lines, if_parsed, parse_access_log_tail,
}

abbrev pub count : (Bytes → Bool) → List Bytes → ℕ
count p [] = 0
count p (l ∷ ls) = (if p l then 1 else 0) + count p ls

abbrev pub Among : ℤ → List ℤ → Type 0
Among t [] = ⊥
Among t (u ∷ us) = (t ≡ u) ⊎ Among t us

abbrev pub some_status : (ℕ → Bool) → Option ℕ → Bool
some_status p none = false
some_status p (some code) = p code

abbrev pub not_before : ℤ → Option ℤ → Bool
not_before cutoff none = false
not_before cutoff (some ts) = not (ltb_ℤ ts cutoff)

abbrev pub onto : Option ℤ → List ℤ → List ℤ
onto none ts = ts
onto (some t) ts = t ∷ ts

abbrev oldest_of : Option ℤ → List ℤ → Option ℤ
oldest_of o [] = o
oldest_of o (t ∷ ts) = oldest_of (older t o) ts

-- One oldest of a list of instants with those before it.
abbrev Oldest : ℤ → List ℤ → ℤ → Type 0
Oldest o ts r = ((r ≡ o) ⊎ Among r ts) × (r ≤ℤ o) × All (λ t. r ≤ℤ t) ts

le_of_older : (t o r : ℤ) → ltb_ℤ t o ≡ true → r ≤ℤ t → r ≤ℤ o
unfolding ltb_ℤ
le_of_older t o r h k = ground (arith, h, k)

le_of_not_older : (t o r : ℤ) → ltb_ℤ t o ≡ false → r ≤ℤ o → r ≤ℤ t
unfolding ltb_ℤ
le_of_not_older t o r h k = ground (arith, h, k)

≤ℤ_refl : (t : ℤ) → t ≤ℤ t
≤ℤ_refl t = omega arith

oldest_of-some : (ts : List ℤ) (o : ℤ) → (r : ℤ) × (oldest_of (some o) ts ≡ some r) × Oldest o ts r
oldest_of-some [] o = (o, refl, (inl refl, ≤ℤ_refl o, tt))
oldest_of-some (t ∷ ts) o = elim (Bool-cases (ltb_ℤ t o)) [
  | inl before ↦
      let (r, same, (here, le, all)) = oldest_of-some ts t in
      (r, rw before same, (inr here, le_of_older t o r before le, (le, all)))
  | inr after ↦
      let (r, same, (here, le, all)) = oldest_of-some ts o in
      (r, rw after same, (among here, le, (le_of_not_older t o r after le, all)))
]
  where
    among : {r : ℤ} → (r ≡ o) ⊎ Among r ts → (r ≡ o) ⊎ Among r (t ∷ ts)
    among (inl e) = inl e
    among (inr m) = inr (inr m)

module _ (parse_time : Bytes → Option ℤ) where
  abbrev pub stamps : List Bytes → List ℤ
  stamps [] = []
  stamps (l ∷ ls) = onto (extract_log_timestamp parse_time l) (stamps ls)

module _ (parse_time : Bytes → Option ℤ) (cutoff : ℤ) where
  -- The line is not from before the cutoff, and has such a status.
  abbrev pub is_recent : (ℕ → Bool) → Bytes → Bool
  is_recent p l =
      not_before cutoff (extract_log_timestamp parse_time l) && some_status p (extract_log_status l)

  bucket_lem :
      (s : Option ℕ) (r : Recent)
      → ((bucket s r).recent_4xx ≡ (if some_status is_4xx s then 1 else 0) + r.recent_4xx)
        × ((bucket s r).recent_5xx ≡ (if some_status is_5xx s then 1 else 0) + r.recent_5xx)
        × ((bucket s r).oldest_parsed ≡ r.oldest_parsed)
  unfolding bucket
  bucket_lem none r = ground arith
  bucket_lem (some code) r = ground arith

  visited :
      (l : Bytes) (o : Option ℤ) (r : Recent)
      → ((visit_stamped parse_time cutoff l o r).recent_4xx
          ≡ (if not_before cutoff o && some_status is_4xx (extract_log_status l) then 1 else 0)
            + r.recent_4xx)
        × ((visit_stamped parse_time cutoff l o r).recent_5xx
            ≡ (if not_before cutoff o && some_status is_5xx (extract_log_status l) then 1 else 0)
              + r.recent_5xx)
        × ((visit_stamped parse_time cutoff l o r).oldest_parsed
            ≡ oldest_of r.oldest_parsed (onto o []))
  unfolding visit_stamped
  visited l none r = ground arith
  visited l (some ts) r = elim (Bool-cases (ltb_ℤ ts cutoff)) [
    | inl before ↦ rw before ground arith
    | inr within ↦
        rw within (
          bucket_lem (extract_log_status l) (record r { oldest_parsed = older ts r.oldest_parsed }))
  ]

  oldest_of-onto :
      (o p : Option ℤ) (ts : List ℤ)
      → oldest_of (oldest_of p (onto o [])) ts ≡ oldest_of p (onto o ts)
  oldest_of-onto none p ts = refl
  oldest_of-onto (some t) p ts = refl

  count_lines_lem :
      (ls : List Bytes) (r : Recent)
      → ((count_lines parse_time cutoff ls r).recent_4xx
          ≡ count (is_recent is_4xx) ls + r.recent_4xx)
        × ((count_lines parse_time cutoff ls r).recent_5xx
            ≡ count (is_recent is_5xx) ls + r.recent_5xx)
        × ((count_lines parse_time cutoff ls r).oldest_parsed
            ≡ oldest_of r.oldest_parsed (stamps parse_time ls))
  unfolding count_lines
  count_lines_lem [] r = (omega arith, omega arith, refl)
  count_lines_lem (l ∷ ls) r =
      let o = extract_log_timestamp parse_time l in
      let (v4, v5, v) = visited l o r in
      let (c4, c5, c) = count_lines_lem ls (visit_stamped parse_time cutoff l o r) in
      (
        omega (arith, c4, v4),
        omega (arith, c5, v5),
        c
            ∙ ap (λ p. oldest_of p (stamps parse_time ls)) v
            ∙ oldest_of-onto o r.oldest_parsed (stamps parse_time ls),
      )

-- What has an element has an oldest.
oldest_of-none :
    (ts : List ℤ)
    → ts ≢ []
    → (r : ℤ) × (oldest_of none ts ≡ some r) × Among r ts × All (λ t. r ≤ℤ t) ts
oldest_of-none [] h = absurd (h refl)
oldest_of-none (t ∷ ts) h =
    let (r, same, (here, le, all)) = oldest_of-some ts t in (r, same, here, (le, all))

module _ (parse_time : Bytes → Option ℤ) (scan : Scan) (now window : ℤ) where
  abbrev pub counts : (ls : List Bytes) → ℤ → ℕ × ℕ × ℤ
  counts ls oldest = (
    count (is_recent parse_time (cutoff_of now window) is_4xx) ls,
    count (is_recent parse_time (cutoff_of now window) is_5xx) ls,
    oldest,
  )

  parsed_as :
      (r : Recent) (o : Option ℤ) (c4 c5 : ℕ) (oldest : ℤ)
      → r.recent_4xx ≡ c4 + 0
      → r.recent_5xx ≡ c5 + 0
      → o ≡ some oldest
      → if_parsed parse_time none r o ≡ some (c4, c5, oldest)
  parsed_as r o c4 c5 oldest h4 h5 h = ground (arith, h4, h5, h)

  -- Of a tail that is not empty, was read to its end and has a timestamp that parses, the counts are
  -- those of the lines with a timestamp that is not before the cutoff and a status of the class, and the
  -- oldest is a timestamp of the tail with none before it, whether its line counts or not.
  pub parse_access_log_tail-counts :
      (c : ℕ) (cs : Bytes)
      → (scan (c ∷ cs)).1 ≡ none
      → stamps parse_time (scan (c ∷ cs)).0 ≢ []
      → (oldest : ℤ) × (parse_access_log_tail parse_time scan (c ∷ cs) now window
          ≡ some (counts (scan (c ∷ cs)).0 oldest))
        × Among oldest (stamps parse_time (scan (c ∷ cs)).0)
        × All (λ t. oldest ≤ℤ t) (stamps parse_time (scan (c ∷ cs)).0)
  unfolding parse_access_log_tail
  parse_access_log_tail-counts c cs fine stamped =
      let ls = (scan (c ∷ cs)).0 in
      let (oldest, same, here, all) = oldest_of-none (stamps parse_time ls) stamped in
      let (h4, h5, h) = count_lines_lem parse_time (cutoff_of now window) ls no_recent in
      let r = count_lines parse_time (cutoff_of now window) ls no_recent in
      (oldest, rw fine (parsed_as r r.oldest_parsed _ _ oldest h4 h5 (h ∙ same)), here, all)
