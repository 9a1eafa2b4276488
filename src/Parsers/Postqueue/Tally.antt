-- ===== src/Parsers/Postqueue/Tally.antt =====
-- What daemon/internal/helper/ops/postqueue.go counts, over whole outputs.
use host_health_mcp.Base.{
  ℕ, suc, ◌+◌, ◌-◌, ◌*◌, ◌/◌, ◌≤◌, ◌≡◌, refl, sym, ap, ◌∙◌, min, Bytes, codes, text_eq, Bool, true,
  false, Option, none, some, List, [], ◌∷◌, ◌++◌, arith, ltb, Bool-cases, inl, inr, if◌then◌else◌,
}
use host_health_mcp.Base.Result.{ok, err}
use host_health_mcp.Parsers.Scan.{Scan, contains, is_digit}
use host_health_mcp.Parsers.Postqueue.{
  PostqueueResult, not_scanned, max_queue_depth, saturate, depth_of_fields, is_deferred_header_line,
  is_summary, scan_queue, ended, parse_postqueue_output,
}

-- The number that the leading digits of a text spell after those that spell `n`, without a bound.
unfoldable pub number_from : ℕ → Bytes → ℕ
number_from n [] = n
number_from n (c ∷ cs) =
    let rest = number_from (n * 10 + (c - b'0')) cs in if is_digit c then rest else n

number_from-le : (n : ℕ) (cs : Bytes) → n ≤ number_from n cs
unfolding number_from
number_from-le n [] = omega arith
number_from-le n (c ∷ cs) =
    let onwards = number_from-le (n * 10 + (c - b'0')) cs in ground (arith, onwards)

digit_bound : (c : ℕ) → is_digit c ≡ true → c - b'0' ≤ 9
unfolding is_digit
digit_bound c h = ground (arith, h)

room_left :
    (n d : ℕ) → d ≤ 9 → ltb ((max_queue_depth - d) / 10) n ≡ false → n * 10 + d ≤ max_queue_depth
room_left n d small h = ground (arith, small, h)

no_room : (n d : ℕ) → ltb ((max_queue_depth - d) / 10) n ≡ true → max_queue_depth ≤ n * 10 + d
no_room n d h = ground (arith, h)

saturate-min :
    (n : ℕ) (cs : Bytes)
    → n ≤ max_queue_depth
    → saturate n cs ≡ min max_queue_depth (number_from n cs)
unfolding saturate number_from
saturate-min n [] h = omega (arith, h)
saturate-min n (c ∷ cs) h = elim (Bool-cases (is_digit c)) [
  | inr other ↦ rw other (omega (arith, h))
  | inl digit ↦ elim (Bool-cases (ltb ((max_queue_depth - (c - b'0')) / 10) n)) [
    | inl over ↦
        rw (digit, over)
          (omega (arith, no_room n (c - b'0') over, number_from-le (n * 10 + (c - b'0')) cs))
    | inr under ↦
        rw (digit, under)
          (saturate-min (n * 10 + (c - b'0')) cs
            (room_left n (c - b'0') (digit_bound c digit) under))
  ]
]

-- The fields that stand behind an "in".
abbrev pub followers : List Bytes → List Bytes
followers [] = []
followers (f ∷ []) = []
followers (f ∷ g ∷ fs) =
    if text_eq f (codes "in") then g ∷ followers (g ∷ fs) else followers (g ∷ fs)

-- The depth that the last of them tells, cut at the greatest.
abbrev pub last_depth : ℕ → List Bytes → ℕ
last_depth depth [] = depth
last_depth depth (f ∷ fs) = last_depth (min max_queue_depth (number_from 0 f)) fs

last_depth-append :
    (xs ys : List Bytes) (depth : ℕ)
    → last_depth depth (xs ++ ys) ≡ last_depth (last_depth depth xs) ys
last_depth-append [] ys depth = refl
last_depth-append (x ∷ xs) ys depth =
    last_depth-append xs ys (min max_queue_depth (number_from 0 x))

depth_of_fields-followers :
    (fs : List Bytes) (depth : ℕ) → depth_of_fields fs depth ≡ last_depth depth (followers fs)
unfolding depth_of_fields
depth_of_fields-followers [] depth = refl
depth_of_fields-followers (f ∷ []) depth = refl
depth_of_fields-followers (f ∷ g ∷ fs) depth = elim (Bool-cases (text_eq f (codes "in"))) [
  | inl announces ↦ rw announces (
      depth_of_fields-followers (g ∷ fs) (saturate 0 g)
      ∙ ap (λ d. last_depth d (followers (g ∷ fs))) (saturate-min 0 g (omega arith)))
  | inr other ↦ rw other (depth_of_fields-followers (g ∷ fs) depth)
]

module _ (fields : Bytes → List Bytes) where
  abbrev pub is_empty_queue : Bytes → Bool
  is_empty_queue line = contains (codes "Mail queue is empty") line

  -- The lines before the first that says the queue is empty, and whether there is one.
  abbrev pub before_empty : List Bytes → List Bytes
  before_empty [] = []
  before_empty (l ∷ ls) = if is_empty_queue l then [] else l ∷ before_empty ls

  abbrev pub has_empty : List Bytes → Bool
  has_empty [] = false
  has_empty (l ∷ ls) = if is_empty_queue l then true else has_empty ls

  -- The numbers that summaries announce, and the deferred messages among the other lines.
  abbrev pub announced : List Bytes → List Bytes
  announced [] = []
  announced (l ∷ ls) =
      if is_summary fields l then followers (fields l) ++ announced ls else announced ls

  abbrev pub deferred : List Bytes → ℕ
  deferred [] = 0
  deferred (l ∷ ls) =
      if is_summary fields l
      then deferred ls
      else if is_deferred_header_line fields l
      then suc (deferred ls)
      else deferred ls

  abbrev pub tally : List Bytes → PostqueueResult
  tally ls = record { queue_depth = last_depth 0 (announced ls); deferred_count = deferred ls }

  abbrev counted : List Bytes → Bool → ℕ → ℕ → PostqueueResult × Bool
  counted ls empty depth count = (record { queue_depth = depth; deferred_count = count }, empty)

  scan_queue_lem :
      (ls : List Bytes) (depth count : ℕ)
      → scan_queue fields ls (record { queue_depth = depth; deferred_count = count }) ≡ (
        record {
          queue_depth = last_depth depth (announced (before_empty ls));
          deferred_count = count + deferred (before_empty ls);
        },
        has_empty ls,
      )
  unfolding scan_queue
  scan_queue_lem [] depth count = ap (counted [] false depth) (omega arith)
  scan_queue_lem (l ∷ ls) depth count = elim (Bool-cases (is_empty_queue l)) [
    | inl empty ↦ rw empty (ap (counted [] true depth) (omega arith))
    | inr more ↦ elim (Bool-cases (is_summary fields l)) [
      | inl summary ↦
          rw (more, summary)
            (scan_queue_lem ls (depth_of_fields (fields l) depth) count
              ∙ ap (λ d. counted [] (has_empty ls) d (count + deferred (before_empty ls)))
                  (ap (λ d. last_depth d (announced (before_empty ls)))
                      (depth_of_fields-followers (fields l) depth)
                    ∙ sym (
                        last_depth-append (followers (fields l)) (announced (before_empty ls))
                          depth)))
      | inr other ↦ elim (Bool-cases (is_deferred_header_line fields l)) [
        | inl counts ↦
            rw (more, other, counts)
              (scan_queue_lem ls depth (suc count)
                ∙ ap (counted [] (has_empty ls) (last_depth depth (announced (before_empty ls))))
                    (omega arith))
        | inr skipped ↦ rw (more, other, skipped) (scan_queue_lem ls depth count)
      ]
    ]
  ]

  -- The reply is the tally of the lines before the one that says the queue is empty, or of all lines if
  -- none does and they were read to the end: the depth is the number that the last summary announces
  -- last, cut at ten million however many digits it has. An output cut short is an error.
  pub parse_postqueue_output_lem :
      (scan : Scan) (stdout : Bytes)
      → parse_postqueue_output fields scan stdout ≡ (
          if has_empty (scan stdout).0
          then ok (tally (before_empty (scan stdout).0))
          else elim (scan stdout).1 [
            | none ↦ ok (tally (before_empty (scan stdout).0))
            | some e ↦ err (not_scanned e)
          ])
  unfolding parse_postqueue_output
  parse_postqueue_output_lem scan stdout =
      let lines = (scan stdout).0 in
      let all =
        scan_queue_lem lines 0 0
        ∙ ap (counted [] (has_empty lines) (last_depth 0 (announced (before_empty lines))))
            (omega arith) in
      rw all (by_end (has_empty (scan stdout).0) (scan stdout).1)
    where
      by_end :
          (empty : Bool) (e : Option Bytes)
          → ended fields (tally (before_empty (scan stdout).0), empty) e ≡ (
              if empty then ok (tally (before_empty (scan stdout).0)) else elim e [
                | none ↦ ok (tally (before_empty (scan stdout).0))
                | some e ↦ err (not_scanned e)
              ])
      by_end true e = refl
      by_end false none = refl
      by_end false (some e) = refl
