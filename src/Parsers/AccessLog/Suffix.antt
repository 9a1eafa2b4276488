-- ===== src/Parsers/AccessLog/Suffix.antt =====
-- Which bytes of a log daemon/internal/helper/ops/nginx_apache.go reads.
use host_health_mcp.Base.{
  ℕ, suc, ◌+◌, ◌-◌, ◌^◌, ◌<◌, ◌≤◌, ◌≡◌, refl, sym, ap, ◌∙◌, Bytes, Bool, true, false, not, Option,
  none, some, [], ◌∷◌, ◌++◌, length, take, drop, length-drop, take_all, ◌⊎◌, inl, inr, arith,
  Bool-cases, ◌==◌, leb, if◌then◌else◌,
}
use host_health_mcp.Base.Result.{ok, err}
use host_health_mcp.Helper.Deadline.{ℤ, pos}
use host_health_mcp.Parsers.Int64.{
  ◌-ℤ◌, ltb_ℤ, wrap64, wrap64_small, pos_part, pos-sub-pos, ltb_ℤ-pos, ltb-true, ltb-false,
}
use host_health_mcp.Parsers.Scan.{all_bytes}
use host_health_mcp.Parsers.AccessLog.{cut_byte}
use host_health_mcp.Parsers.AccessLog.Read.{
  LogFile, behind_first, trimmed, seek_tail, read_sized, read_regular, not_regular,
}

abbrev pub lacks : ℕ → Bytes → Bool
lacks b s = all_bytes (λ c. not (c == b)) s

pub cut_byte-append :
    (b : ℕ) (s t : Bytes) → lacks b s ≡ true → cut_byte b (s ++ b ∷ t) ≡ some (s, t)
unfolding cut_byte all_bytes
cut_byte-append b [] t h = ground arith
cut_byte-append b (c ∷ cs) t h = elim (Bool-cases (c == b)) [
  | inl same ↦ absurd (ground (arith, h, same))
  | inr other ↦ rw (other, cut_byte-append b cs t (ground (arith, h, other))) refl
]

-- What a cut finds is where the first such byte is; where it finds none there is none.
abbrev CutAt : ℕ → Bytes → Option (Bytes × Bytes) → Type 0
CutAt b s none = lacks b s ≡ true
CutAt b s (some (before, after)) = (s ≡ before ++ b ∷ after) × (lacks b before ≡ true)

cut_byte-CutAt : (b : ℕ) (s : Bytes) → CutAt b s (cut_byte b s)
unfolding cut_byte all_bytes
cut_byte-CutAt b [] = refl
cut_byte-CutAt b (c ∷ cs) = elim (Bool-cases (c == b)) [
  | inl same ↦ rw same (ground (arith, same), refl)
  | inr other ↦ rw other (later (cut_byte b cs) (cut_byte-CutAt b cs) other)
]
  where
    later :
        (o : Option (Bytes × Bytes))
        → CutAt b cs o
        → (c == b) ≡ false
        → CutAt b
            (c ∷ cs)
            (elim o [ none ↦ none | some (before, after) ↦ some (c ∷ before, after) ])
    later none h other = rw other h
    later (some (before, after)) (e, h) other = (ap (◌∷◌ c) e, rw other h)

-- What is left of the last bytes of a log: nothing of the line that they begin in.
abbrev pub WholeLines : Bytes → Bytes → Type 0
WholeLines last r =
    ((partial : Bytes) × (last ≡ partial ++ b'\n' ∷ r) × (lacks b'\n' partial ≡ true))
    ⊎ ((r ≡ []) × (lacks b'\n' last ≡ true))

CutAt-WholeLines :
    (last : Bytes) (o : Option (Bytes × Bytes))
    → CutAt b'\n' last o
    → WholeLines last (behind_first o)
CutAt-WholeLines last none h = inr (refl, h)
CutAt-WholeLines last (some (before, after)) (e, h) = inl (before, e, h)

least_of : (a b : ℕ) → a ≤ b → pos_part (if ltb_ℤ (pos a) (pos b) then pos a else pos b) ≡ a
least_of a b h = rw ltb_ℤ-pos ground (arith, h)

nil_of_length : (s : Bytes) → length s ≡ 0 → s ≡ []
nil_of_length [] h = refl
nil_of_length (c ∷ cs) h = absurd (omega (arith, h))

module _ (f : LogFile) (content : Bytes) (regular : f.regular ≡ true)
    (size : f.size ≡ length content) (bounded : length content < 2 ^ 63)
    (seeks : (off : ℤ) → f.seek_error off ≡ none)
    (reads : (off want : ℕ)
      → off + want ≤ length content
      → f.read_full (pos off) want ≡ (take want (drop off content), none)) where
  left_from :
      (off : ℕ)
      → off ≤ length content
      → wrap64 (pos (length content) -ℤ pos off) ≡ pos (length content - off)
  left_from off h =
      rw (pos-sub-pos off (length content) h)
        (wrap64_small (length content - off) (omega (arith, bounded)))

  no_seek : (b : Bool) (off : ℤ) → (if b then f.seek_error off else none) ≡ none
  no_seek true off = seeks off
  no_seek false off = refl

  read_at :
      (off n : ℕ) (truncated : Bool)
      → off ≤ length content
      → length content - off ≤ suc n
      → seek_tail f (length content) truncated (pos off) (pos (suc n))
        ≡ trimmed truncated (take (length content - off) (drop off content), none)
  unfolding seek_tail
  read_at off n truncated h k =
      rw (no_seek, left_from off h, least_of (length content - off) (suc n) k)
        (ap (trimmed truncated) (reads off (length content - off) (omega (arith, h))))

  of_regular : (n : ℕ) → read_regular f (pos n) ≡ read_sized f (length content) (pos n)
  unfolding read_regular
  of_regular n =
      ap (λ b. if b then read_sized f f.size (pos n) else err not_regular) regular
      ∙ ap (λ m. read_sized f m (pos n)) size

  read_whole :
      (n : ℕ) → length content ≤ suc n → read_sized f (length content) (pos (suc n)) ≡ ok content
  unfolding read_sized
  read_whole n h = elim (Bool-cases (length content == 0)) [
    | inl empty ↦ rw empty (ap ok (sym (nil_of_length content (ground (arith, empty)))))
    | inr more ↦
        rw (more, ltb_ℤ-pos, ltb-false (suc n) (length content) h)
          (read_at 0 n false (omega arith) (omega (arith, h))
            ∙ ap ok (take_all (length content - 0) content (omega arith)))
  ]

  read_last :
      (n : ℕ)
      → suc n < length content
      → read_sized f (length content) (pos (suc n))
        ≡ ok (behind_first (cut_byte b'\n' (drop (length content - suc n) content)))
  unfolding read_sized
  read_last n h =
      let off : ℕ = length content - suc n in
      rw
        (
          not_empty,
          ltb_ℤ-pos,
          ltb-true (suc n) (length content) h,
          left_from (suc n) (omega (arith, h)),
        )
        (read_at off n true (omega arith) (omega (arith, h))
          ∙ ap (λ buf. ok (behind_first (cut_byte b'\n' buf)))
              (take_all (length content - off) (drop off content)
                (omega (arith, length-drop off content))))
    where
      not_empty : (length content == 0) ≡ false
      not_empty = ground (arith, h)

  -- The tail of a regular file whose bytes are `content` is all of it where it fits the budget, and
  -- else, of its last bytes as many as the budget, those behind the first newline, or nothing where
  -- there is no newline: never a part of a line that began earlier.
  pub read_regular-WholeLines :
      (n : ℕ)
      → (r : Bytes) × (read_regular f (pos (suc n)) ≡ ok r)
        × (((length content ≤ suc n) × (r ≡ content))
            ⊎ ((suc n < length content) × WholeLines (drop (length content - suc n) content) r))
  read_regular-WholeLines n = elim (Bool-cases (leb (length content) (suc n))) [
    | inl fits ↦
        let h : length content ≤ suc n = ground (arith, fits) in
        (content, of_regular (suc n) ∙ read_whole n h, inl (h, refl))
    | inr over ↦
        let h : suc n < length content = ground (arith, over) in
        let last = drop (length content - suc n) content in
        (
          behind_first (cut_byte b'\n' last),
          of_regular (suc n) ∙ read_last n h,
          inr (h, CutAt-WholeLines last (cut_byte b'\n' last) (cut_byte-CutAt b'\n' last)),
        )
  ]
