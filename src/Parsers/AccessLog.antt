-- ===== src/Parsers/AccessLog.antt =====
-- daemon/internal/helper/ops/nginx_apache.go: the 4xx and 5xx counts of an access log, from its tail.
-- This file has the lines of the log: a timestamp, a status, and what is counted of them. An instant
-- is a number of nanoseconds, and `parse_time` is time.Parse of the common log format.
pub mod Lines
pub mod Read
pub mod Suffix
pub mod Reply
pub mod Coverage
pub mod Confined
pub mod Request
pub mod LogLine
mod Examples
use host_health_mcp.Base.{
  ℕ, suc, ◌+◌, ◌-◌, ◌*◌, Bytes, Bool, true, false, not, ◌&&◌, ◌||◌, Option, none, some, List, [],
  ◌∷◌, ltb, leb, ◌==◌, if◌then◌else◌,
}
use host_health_mcp.Base.Maybe.{◌>>=◌}
use host_health_mcp.Helper.Deadline.{ℤ}
use host_health_mcp.Parsers.Int64.{◌+ℤ◌, neg64, ltb_ℤ}
use host_health_mcp.Parsers.Scan.{Scan, is_digit}

-- `bytes.IndexByte`: what stands before the first such byte, and what behind it.
unfoldable pub cut_byte : ℕ → Bytes → Option (Bytes × Bytes)
cut_byte b [] = none
cut_byte b (c ∷ cs) =
    let rest = cut_byte b cs in
    if c == b
    then some ([], cs)
    else elim rest [ none ↦ none | some (before, after) ↦ some (c ∷ before, after) ]

-- The status behind the closing quote, with the blanks round it.
unfoldable pub status_after : Bytes → Option ℕ
status_after (blank ∷ x ∷ y ∷ z ∷ end ∷ rest) =
    if blank == b' ' && is_digit x && is_digit y && is_digit z && (end == b' ' || end == b'\t')
    then some ((x - b'0') * 100 + (y - b'0') * 10 + (z - b'0'))
    else none
status_after _ = none

unfoldable pub extract_log_status : Bytes → Option ℕ
extract_log_status line = do
  (_, rest) ← cut_byte b'"' line
  (_, after) ← cut_byte b'"' rest
  status_after after

-- What the loop over the lines changes; `anyParsed` is that there is an oldest.
pub record Recent : Type 0 where
  pub recent_4xx : ℕ
  pub recent_5xx : ℕ
  pub oldest_parsed : Option ℤ

abbrev pub no_recent : Recent
no_recent = record { recent_4xx = 0; recent_5xx = 0; oldest_parsed = none }

abbrev pub is_4xx : ℕ → Bool
is_4xx code = leb 400 code && ltb code 500

abbrev pub is_5xx : ℕ → Bool
is_5xx code = leb 500 code && ltb code 600

unfoldable pub bucket : Option ℕ → Recent → Recent
bucket none r = r
bucket (some code) r =
    if is_4xx code
    then record r { recent_4xx = suc r.recent_4xx }
    else if is_5xx code
    then record r { recent_5xx = suc r.recent_5xx }
    else r

-- `now.Add(-window)`
abbrev pub cutoff_of : ℤ → ℤ → ℤ
cutoff_of now window = now +ℤ neg64 window

abbrev pub older : ℤ → Option ℤ → Option ℤ
older ts none = some ts
older ts (some o) = if ltb_ℤ ts o then some ts else some o

module _ (parse_time : Bytes → Option ℤ) where
  unfoldable pub extract_log_timestamp : Bytes → Option ℤ
  extract_log_timestamp line = do
    (_, rest) ← cut_byte b'[' line
    (stamp, _) ← cut_byte b']' rest
    parse_time stamp

  -- The body of the loop, from the line's timestamp on.
  unfoldable pub visit_stamped : ℤ → Bytes → Option ℤ → Recent → Recent
  visit_stamped cutoff line none r = r
  visit_stamped cutoff line (some ts) r =
      let seen : Recent = record r { oldest_parsed = older ts r.oldest_parsed } in
      if ltb_ℤ ts cutoff then seen else bucket (extract_log_status line) seen

  unfoldable pub count_lines : ℤ → List Bytes → Recent → Recent
  count_lines cutoff [] r = r
  count_lines cutoff (l ∷ ls) r =
      count_lines cutoff ls (visit_stamped cutoff l (extract_log_timestamp l) r)

  abbrev pub if_parsed : Option Bytes → Recent → Option ℤ → Option (ℕ × ℕ × ℤ)
  if_parsed (some e) r oldest = none
  if_parsed none r none = none
  if_parsed none r (some oldest) = some (r.recent_4xx, r.recent_5xx, oldest)

  -- `none` is the answer with `anyParsed` false.
  unfoldable pub parse_access_log_tail : Scan → Bytes → ℤ → ℤ → Option (ℕ × ℕ × ℤ)
  parse_access_log_tail scan [] now window = none
  parse_access_log_tail scan (c ∷ cs) now window =
      let (lines, e) = scan (c ∷ cs) in
      let r = count_lines (cutoff_of now window) lines no_recent in if_parsed e r r.oldest_parsed
