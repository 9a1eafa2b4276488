-- ===== src/Parsers/Postqueue.antt =====
-- daemon/internal/helper/ops/postqueue.go: the depth of the mail queue and its deferred messages.
-- `fields` is strings.Fields.
pub mod Tally
use host_health_mcp.Base.{
  ℕ, zero, suc, ◌+◌, ◌-◌, ◌*◌, ◌/◌, ◌≤◌, ◌≡◌, refl, min, Bytes, codes, text_eq, Bool, true, false,
  not, ◌&&◌, ◌||◌, Option, none, some, List, [], ◌∷◌, length, arith, ltb, leb, ◌==◌, Bool-cases,
  ◌⊎◌, inl, inr, if◌then◌else◌,
}
use host_health_mcp.Base.Result.{Result, ok, err}
use host_health_mcp.Helper.Exec.{Child, run}
use host_health_mcp.Helper.Server.{DispatchError}
use host_health_mcp.Parsers.Scan.{
  Scan, has_prefix, contains, is_digit, is_alphanumeric, all_bytes, split_last,
}

pub record PostqueueResult : Type 0 where
  pub queue_depth : ℕ
  pub deferred_count : ℕ

pub data PostqueueError : Type 0 where
  not_run : DispatchError → PostqueueError
  not_scanned : Bytes → PostqueueError

abbrev pub max_queue_depth : ℕ
max_queue_depth = 10_000_000

-- The loop over the bytes of the number, with what it has so far.
unfoldable pub saturate : ℕ → Bytes → ℕ
saturate n [] = n
saturate n (c ∷ cs) =
    let d = c - b'0' in
    let rest = saturate (n * 10 + d) cs in
    if is_digit c then (if ltb ((max_queue_depth - d) / 10) n then max_queue_depth else rest) else n

-- The loop over the fields of the summary: the number after the last "in" that has one.
unfoldable pub depth_of_fields : List Bytes → ℕ → ℕ
depth_of_fields [] depth = depth
depth_of_fields (f ∷ []) depth = depth
depth_of_fields (f ∷ g ∷ fs) depth =
    depth_of_fields (g ∷ fs) (if text_eq f (codes "in") then saturate 0 g else depth)

abbrev is_space : ℕ → Bool
is_space c = c == b' ' || c == b'\t'

-- A queue id with its indicator: whether it is one, and whether the message is deferred.
abbrev is_queue_id : Bytes → Bool
is_queue_id tok = leb 10 (length tok) && leb (length tok) 15 && all_bytes is_alphanumeric tok

unfoldable pub is_deferred_id : Bytes → Bool
is_deferred_id tok = elim (split_last tok) [
  | none ↦ false
  | some (front, last) ↦ if last == b'*' || last == b'!' then false else is_queue_id tok
]

abbrev pub is_size : Bytes → Bool
is_size [] = false
is_size (c ∷ cs) = all_bytes is_digit (c ∷ cs)

abbrev two_columns : List Bytes → Bool
two_columns (tok ∷ size ∷ rest) = is_deferred_id tok && is_size size
two_columns _ = false

module _ (fields : Bytes → List Bytes) where
  unfoldable pub is_deferred_header_line : Bytes → Bool
  is_deferred_header_line [] = false
  is_deferred_header_line (c ∷ cs) = if is_space c then false else two_columns (fields (c ∷ cs))

  abbrev pub is_summary : Bytes → Bool
  is_summary line = has_prefix (codes "--") line && contains (codes "Requests") line

  -- The loop over the lines; true where it returned at an empty queue.
  unfoldable pub scan_queue : List Bytes → PostqueueResult → PostqueueResult × Bool
  scan_queue [] out = (out, false)
  scan_queue (line ∷ ls) out =
      if contains (codes "Mail queue is empty") line
      then (out, true)
      else if is_summary line
      then scan_queue ls
          (record out { queue_depth = depth_of_fields (fields line) out.queue_depth })
      else if is_deferred_header_line line
      then scan_queue ls (record out { deferred_count = suc out.deferred_count })
      else scan_queue ls out

  abbrev pub ended : PostqueueResult × Bool → Option Bytes → Result PostqueueError PostqueueResult
  ended (out, true) e = ok out
  ended (out, false) none = ok out
  ended (out, false) (some e) = err (not_scanned e)

  unfoldable pub parse_postqueue_output : Scan → Bytes → Result PostqueueError PostqueueResult
  parse_postqueue_output scan stdout =
      let (lines, e) = scan stdout in
      ended (scan_queue lines (record { queue_depth = 0; deferred_count = 0 })) e

  abbrev parsed : Scan → Bytes × Option DispatchError → Result PostqueueError PostqueueResult
  parsed scan (stdout, some e) = err (not_run e)
  parsed scan (stdout, none) = parse_postqueue_output scan stdout

  unfoldable pub postqueue : (Bytes → Bytes) → Scan → Child → Result PostqueueError PostqueueResult
  postqueue sha256_hex scan child = parsed scan (run sha256_hex child)
