-- ===== src/Parsers/Mdraid/Progress.antt =====
-- When a reply of daemon/internal/helper/ops/mdraid.go has a progress.
use host_health_mcp.Base.{
  ◌≡◌, refl, sym, ap, ◌∙◌, subst, Bytes, codes, text_eq, text_eq_iff, Bool, true, false, ◌||◌,
  Option, none, some, List, [], ◌∷◌, inl, inr, arith, Bool-cases, Option-cases, if◌then◌else◌,
}
use host_health_mcp.Base.Result.{ok}
use host_health_mcp.Parsers.Mdraid.{
  Export, MdraidDetail, no_export, is_running, cut_equals, newer, set_key, put, read_export,
  progress_of, mdraid_detail_from_export, is_device_key,
}

abbrev action_key : Bytes
action_key = codes "MD_RESYNC_ACTION"

abbrev pct_key : Bytes
pct_key = codes "MD_RESYNC_PCT"

-- A key that is one text is no other.
other_key : (k a b : Bytes) → text_eq k a ≡ true → text_eq a b ≡ false → text_eq k b ≡ false
other_key k a b h d = subst (λ (j : Bytes). text_eq j b ≡ false) (sym ((text_eq_iff k a).0 h)) d

abbrev pub is_some : {A : Type 0} → Option A → Bool
is_some none = false
is_some (some a) = true

-- The value of a line under a key.
abbrev pub value_at : Bytes → Option (Bytes × Bytes) → Option Bytes
value_at key none = none
value_at key (some (k, v)) = if text_eq k key then some v else none

abbrev pub or_before : Bytes → Option Bytes → Bytes
or_before before none = before
or_before before (some v) = v

-- The action that the lines tell last.
abbrev pub last_action : Bytes → List Bytes → Bytes
last_action before [] = before
last_action before (l ∷ ls) = last_action (or_before before (value_at action_key (cut_equals l))) ls

module _ {F : Type 0} (parse_float : Bytes → Option F) where
  abbrev pub is_number : Option Bytes → Bool
  is_number none = false
  is_number (some v) = is_some (parse_float v)

  -- Some line tells a percentage that is a number.
  abbrev pub tells_pct : List Bytes → Bool
  tells_pct [] = false
  tells_pct (l ∷ ls) = is_number (value_at pct_key (cut_equals l)) || tells_pct ls

  action_if :
      (b : Bool) (x y : Export F) (a : Bytes)
      → x.resync_action ≡ a
      → y.resync_action ≡ a
      → (if b then x else y).resync_action ≡ a
  action_if true x y a h k = h
  action_if false x y a h k = k

  set_key-action :
      (k v : Bytes) (x : Export F)
      → (set_key parse_float k v x).resync_action
        ≡ or_before x.resync_action (value_at action_key (some (k, v)))
  unfolding set_key text_eq
  set_key-action k v x = elim (Bool-cases (text_eq k (codes "MD_LEVEL"))) [
    | inl level ↦ rw (level, other_key k (codes "MD_LEVEL") action_key level refl) refl
    | inr b1 ↦ elim (Bool-cases (text_eq k (codes "MD_DEGRADED"))) [
      | inl degraded ↦
          rw (b1, degraded, other_key k (codes "MD_DEGRADED") action_key degraded refl) refl
      | inr b2 ↦ elim (Bool-cases (text_eq k (codes "MD_ARRAY_STATE"))) [
        | inl state ↦
            rw (b1, b2, state, other_key k (codes "MD_ARRAY_STATE") action_key state refl) refl
        | inr b3 ↦ elim (Bool-cases (text_eq k action_key)) [
          | inl action ↦ rw (b1, b2, b3, action) refl
          | inr b4 ↦
              rw (b1, b2, b3, b4)
                (action_if (text_eq k pct_key) _ _ x.resync_action refl
                  (action_if (is_device_key k) _ _ x.resync_action refl refl))
        ]
      ]
    ]
  ]

  newer_some :
      (o before : Option F) → is_some (newer parse_float o before) ≡ (is_some before || is_some o)
  newer_some none none = refl
  newer_some none (some p) = refl
  newer_some (some q) none = refl
  newer_some (some q) (some p) = refl

  or_false : (b : Bool) → b ≡ (b || false)
  or_false true = refl
  or_false false = refl

  or_assoc : (a b c : Bool) → ((a || b) || c) ≡ (a || (b || c))
  or_assoc true b c = refl
  or_assoc false b c = refl

  pct_if :
      (b : Bool) (x y : Export F) (a : Bool)
      → is_some x.resync_pct ≡ a
      → is_some y.resync_pct ≡ a
      → is_some (if b then x else y).resync_pct ≡ a
  pct_if true x y a h k = h
  pct_if false x y a h k = k

  set_key-pct :
      (k v : Bytes) (x : Export F)
      → is_some (set_key parse_float k v x).resync_pct
        ≡ (is_some x.resync_pct || is_number (value_at pct_key (some (k, v))))
  unfolding set_key text_eq
  set_key-pct k v x = elim (Bool-cases (text_eq k (codes "MD_LEVEL"))) [
    | inl level ↦ rw (level, other_key k (codes "MD_LEVEL") pct_key level refl) (or_false _)
    | inr b1 ↦ elim (Bool-cases (text_eq k (codes "MD_DEGRADED"))) [
      | inl degraded ↦
          rw (b1, degraded, other_key k (codes "MD_DEGRADED") pct_key degraded refl) (or_false _)
      | inr b2 ↦ elim (Bool-cases (text_eq k (codes "MD_ARRAY_STATE"))) [
        | inl state ↦
            rw (b1, b2, state, other_key k (codes "MD_ARRAY_STATE") pct_key state refl) (or_false _)
        | inr b3 ↦ elim (Bool-cases (text_eq k action_key)) [
          | inl action ↦
              rw (b1, b2, b3, action, other_key k action_key pct_key action refl) (or_false _)
          | inr b4 ↦ elim (Bool-cases (text_eq k pct_key)) [
            | inl pct ↦ rw (b1, b2, b3, b4, pct) (newer_some (parse_float v) x.resync_pct)
            | inr b5 ↦
                rw (b1, b2, b3, b4, b5)
                  (pct_if (is_device_key k) _ _ _ (or_false (is_some x.resync_pct))
                    (or_false (is_some x.resync_pct)))
          ]
        ]
      ]
    ]
  ]

  put-action :
      (kv : Option (Bytes × Bytes)) (x : Export F)
      → (put parse_float kv x).resync_action ≡ or_before x.resync_action (value_at action_key kv)
  unfolding text_eq
  put-action none x = refl
  put-action (some ([], v)) x = refl
  put-action (some (c ∷ cs, v)) x = set_key-action (c ∷ cs) v x

  put-pct :
      (kv : Option (Bytes × Bytes)) (x : Export F)
      → is_some (put parse_float kv x).resync_pct
        ≡ (is_some x.resync_pct || is_number (value_at pct_key kv))
  unfolding text_eq
  put-pct none x = or_false _
  put-pct (some ([], v)) x = or_false _
  put-pct (some (c ∷ cs, v)) x = set_key-pct (c ∷ cs) v x

  read_export-action :
      (ls : List Bytes) (x : Export F)
      → (read_export parse_float ls x).resync_action ≡ last_action x.resync_action ls
  unfolding read_export
  read_export-action [] x = refl
  read_export-action (l ∷ ls) x =
      read_export-action ls (put parse_float (cut_equals l) x)
      ∙ ap (λ a. last_action a ls) (put-action (cut_equals l) x)

  read_export-pct :
      (ls : List Bytes) (x : Export F)
      → is_some (read_export parse_float ls x).resync_pct ≡ (is_some x.resync_pct || tells_pct ls)
  unfolding read_export
  read_export-pct [] x = or_false _
  read_export-pct (l ∷ ls) x =
      read_export-pct ls (put parse_float (cut_equals l) x)
      ∙ ap (λ b. b || tells_pct ls) (put-pct (cut_equals l) x)
      ∙ or_assoc (is_some x.resync_pct) _ (tells_pct ls)

  module _ (percent : Bytes → Option Bytes) (zero_pct : F) (mdstat : Option (List Bytes))
      (name : Bytes) where
    is_some-progress_of :
        (x : Export F)
        → is_some (progress_of parse_float percent zero_pct name mdstat x)
          ≡ (is_some x.resync_pct || is_running x.resync_action)
    unfolding progress_of
    is_some-progress_of x = elim (Option-cases x.resync_pct) [
      | inr (p, told) ↦ rw (told, progress_of) refl
      | inl untold ↦ elim (Bool-cases (is_running x.resync_action)) [
        | inl running ↦ rw (untold, running, progress_of) refl
        | inr idle ↦ rw (untold, idle, progress_of) refl
      ]
    ]

    -- A reply has a progress exactly if the export tells a percentage that is a number, or the action
    -- that it tells last is there and is not "idle", whatever /proc/mdstat holds.
    pub mdraid_detail_from_export-progress :
        (ls : List Bytes) (out : MdraidDetail F)
        → mdraid_detail_from_export parse_float percent zero_pct mdstat name (ls, none) ≡ ok out
        → is_some out.sync_progress ≡ (tells_pct ls || is_running (last_action [] ls))
    unfolding mdraid_detail_from_export
    mdraid_detail_from_export-progress ls out h =
        let x = read_export parse_float ls no_export in
        let same : progress_of parse_float percent zero_pct name mdstat x ≡ out.sync_progress =
          ground (arith, h) in
        ap is_some (sym same)
        ∙ is_some-progress_of x
        ∙ ap (λ b. b || is_running x.resync_action) (read_export-pct ls no_export)
        ∙ ap (λ a. tells_pct ls || is_running a) (read_export-action ls no_export)
