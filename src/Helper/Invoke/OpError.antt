-- ===== src/Helper/Invoke/OpError.antt =====
-- `AsOpError` and `OpErrorFrom` of daemon/internal/daemon/helperinvoke/helperinvoke.go, which make an error
-- fit to leave the daemon, and `BoundMessage` of daemon/internal/shared/schema/envelope.go. `paths` is
-- redact.Paths, which replaces by a regexp.
use host_health_mcp.Base.{
  ℕ, zero, suc, ◌-◌, ◌≤◌, ◌<◌, ◌≡◌, refl, sym, subst, Bytes, Bool, true, false, not, ◌&&◌, Option,
  none, some, List, [], ◌∷◌, ◌++◌, arith, leb, leb→le, length, length-append, length-take, take,
  drop, Bool-cases, ◌⊎◌, inl, inr, if◌then◌else◌,
}
use host_health_mcp.Helper.Deadline.{ℤ}
use host_health_mcp.Helper.Ops.{Code, tool_failed}
use host_health_mcp.Helper.Server.{DispatchError}
use host_health_mcp.Helper.Invoke.{CallError, helper_error}

abbrev pub max_message_len : ℕ
max_message_len = 200

-- The three bytes of "…".
abbrev pub ellipsis : Bytes
ellipsis = 226 ∷ 128 ∷ 166 ∷ []

-- `utf8.RuneStart` of the byte at an index.
abbrev is_rune_start : Bytes → Bool
is_rune_start [] = true
is_rune_start (c ∷ cs) = not (leb 128 c && leb c 191)

abbrev pub starts_rune : Bytes → ℕ → Bool
starts_rune m cut = is_rune_start (drop cut m)

unfoldable pub back_up : Bytes → ℕ → ℕ
back_up m zero = zero
back_up m (suc cut) = let back = back_up m cut in if starts_rune m (suc cut) then suc cut else back

unfoldable pub bound_message : Bytes → Bytes
bound_message m =
    if leb (length m) max_message_len
    then m
    else take (back_up m (max_message_len - length ellipsis)) m ++ ellipsis

-- The last index up to a given one where a character begins, or 0.
abbrev pub IsCut : Bytes → ℕ → ℕ → Type 0
IsCut m most k =
    (k ≤ most)
    × ((k ≡ 0) ⊎ (starts_rune m k ≡ true))
    × ((j : ℕ) → k < j → j ≤ most → starts_rune m j ≡ false)

back_up-IsCut : (m : Bytes) (most : ℕ) → IsCut m most (back_up m most)
unfolding back_up
back_up-IsCut m zero =
    (omega arith, inl refl, λ j above below. absurd (omega (arith, above, below)))
back_up-IsCut m (suc most) = elim (Bool-cases (starts_rune m (suc most))) [
  | inl start ↦
      rw start (omega arith, inr start, λ j above below. absurd (omega (arith, above, below)))
  | inr inside ↦
      let (below, begins, gap) = back_up-IsCut m most in
      rw inside (
        omega (arith, below),
        begins,
        λ j above upto. elim (Bool-cases (leb j most)) [
          | inl before ↦ gap j above (leb→le j most before)
          | inr last ↦
              let is : j ≡ suc most = ground (arith, last, upto) in
              subst (λ (i : ℕ). starts_rune m i ≡ false) (sym is) inside
        ],
      )
]

-- A message of 200 bytes or fewer is kept; of a longer one the bytes before the last place, at 197 or
-- before, where a character begins are kept, with an ellipsis; what comes out has 200 bytes at most.
pub bound_message_lem :
    (m : Bytes)
    → (length m ≤ max_message_len → bound_message m ≡ m)
      × (max_message_len < length m
          → (k : ℕ) × IsCut m 197 k × (bound_message m ≡ take k m ++ ellipsis))
      × (length (bound_message m) ≤ max_message_len)
unfolding bound_message
bound_message_lem m =
    let k = back_up m 197 in
    let cut = back_up-IsCut m 197 in
    elim (Bool-cases (leb (length m) max_message_len)) [
      | inl fits ↦ rw fits (
        λ h. refl,
        λ h. absurd (omega (arith, h, leb→le (length m) max_message_len fits)),
        leb→le (length m) max_message_len fits,
      )
      | inr long ↦ rw long (
        λ h. absurd (ground (arith, h, long)),
        λ h. (k, cut, refl),
        omega (arith, length-append (take k m) ellipsis, length-take k m, cut.0),
      )
    ]

-- `schema.HelperOpError`, whose `Op` the callers fill in.
pub record OpError : Type 0 where
  pub code : Code
  pub message : Bytes
  pub argv : List Bytes
  pub exit_code : Option ℤ
  pub stderr_sha256 : Bytes
  pub stderr_prefix : Bytes

module _ (paths : Bytes → Bytes) (redactor : Option (Bytes → Bytes)) where
  abbrev redacted : Option (Bytes → Bytes) → Bytes → Bytes
  redacted none prefix = prefix
  redacted (some redact) prefix = redact prefix

  unfoldable pub as_op_error : DispatchError → OpError
  as_op_error e = record {
    code = e.code;
    message = bound_message (paths e.message);
    argv = e.argv;
    exit_code = e.tool_exit;
    stderr_sha256 = e.stderr_sha256;
    stderr_prefix = redacted redactor e.stderr_prefix;
  }

  abbrev plain_error : Bytes → OpError
  plain_error text = record {
    code = tool_failed;
    message = bound_message (paths text);
    argv = [];
    exit_code = none;
    stderr_sha256 = [];
    stderr_prefix = [];
  }

  abbrev from_error : (CallError → Bytes) → CallError → OpError
  from_error text (helper_error e) = as_op_error e
  from_error text e = plain_error (text e)

  -- `text` is `Error()` of an error that is no `*HelperError`.
  unfoldable pub op_error_from : (CallError → Bytes) → Option CallError → Option OpError
  op_error_from text none = none
  op_error_from text (some e) = some (from_error text e)
