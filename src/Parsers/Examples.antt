-- ===== src/Parsers/Examples.antt =====
-- The parsers at small outputs, whose lines are given with the scanner.
use host_health_mcp.Base.{
  ◌≡◌, refl, Bytes, codes, text_eq, Option, none, some, List, false, ◌||◌, [], ◌∷◌, ◌==◌,
  if◌then◌else◌,
}
use host_health_mcp.Base.Result.{ok}
use host_health_mcp.Parsers.Scan.{
  Scan, has_prefix, contains, is_digit, all_bytes, is_alphanumeric, split_last,
}
use host_health_mcp.Parsers.Mdraid.{
  MdraidDetail, is_running, mdraid_detail_from_export, read_export, set_key, cut_equals,
  progress_of, read_mdstat_progress, find_progress,
}
use host_health_mcp.Parsers.Mdraid.Progress.{
  is_some, tells_pct, last_action, mdraid_detail_from_export-progress,
}
use host_health_mcp.Helper.Deadline.{pos}
use host_health_mcp.Parsers.NftCounts.{Counter as NftCounter, Entry, table_at, group_tables}
use host_health_mcp.Parsers.NftCounts.Totals.{group_tables_lem}
use host_health_mcp.Parsers.Postqueue.{
  parse_postqueue_output, is_deferred_header_line, is_deferred_id,
}
use host_health_mcp.Parsers.Postqueue.Tally.{number_from, parse_postqueue_output_lem}

-- The words of a line with single blanks.
unfoldable words : Bytes → List Bytes
words [] = [] ∷ []
words (c ∷ cs) = elim (words cs) [
  | [] ↦ []
  | w ∷ ws ↦ if c == b' ' then [] ∷ w ∷ ws else (c ∷ w) ∷ ws
]

abbrev queue : List Bytes
queue =
    codes "ABCDEF0123 512 Mon"
    ∷ codes "ABCDEF0124* 99 Mon"
    ∷ codes "-- 1 Kbytes in 18446744073709551617 Requests."
    ∷ []

abbrev scan : Scan
scan stdout = (queue, none)

-- A depth past the range of an int64 is told as ten million.
parse_postqueue_output_lem_example :
    parse_postqueue_output words scan []
    ≡ ok (record { queue_depth = 10_000_000; deferred_count = 1 })
unfolding words contains has_prefix is_deferred_header_line is_deferred_id split_last all_bytes
    is_alphanumeric is_digit text_eq number_from
parse_postqueue_output_lem_example = parse_postqueue_output_lem words scan []

abbrev as_number : Bytes → Option Bytes
as_number [] = none
as_number (c ∷ cs) = some (c ∷ cs)

abbrev export_lines : List Bytes
export_lines = codes "MD_LEVEL=raid1" ∷ codes "MD_RESYNC_ACTION=recover" ∷ []

abbrev recovering : MdraidDetail Bytes
recovering = record {
  array_name = codes "md0";
  level = codes "raid1";
  state = codes "unknown";
  devices = [];
  degraded = false;
  sync_progress = some (codes "12.5");
}

abbrev mdstat : List Bytes
mdstat = codes "md0 : active raid1" ∷ codes "  recovery = 12.5%" ∷ []

abbrev percent : Bytes → Option Bytes
percent line = some (codes "12.5")

-- The export tells no percentage, so that of /proc/mdstat is taken.
recovers :
    mdraid_detail_from_export as_number percent
      (codes "0")
      (some mdstat)
      (codes "md0")
      (export_lines, none)
    ≡ ok recovering
unfolding mdraid_detail_from_export read_export set_key cut_equals progress_of read_mdstat_progress
    find_progress has_prefix text_eq
recovers = refl

recovers_progress :
    is_some recovering.sync_progress
    ≡ (tells_pct as_number export_lines || is_running (last_action [] export_lines))
recovers_progress =
    mdraid_detail_from_export-progress as_number percent (codes "0") (some mdstat) (codes "md0")
      export_lines recovering recovers

abbrev no_entry : Entry
no_entry = record { counter = none; rule = none }

abbrev drops : NftCounter
drops = record { name = codes "drops"; packets = pos 3; bytes = pos 120 }

abbrev listing : List Entry
listing =
    record no_entry { rule = some (record { family = codes "ip"; table = codes "f" }) }
    ∷ record no_entry {
      counter = some (record { family = codes "ip"; table = codes "f"; counter = drops });
    }
    ∷ record no_entry { rule = some (record { family = codes "ip6"; table = codes "f" }) }
    ∷ []

grouped :
    ((table_at (codes "ip:f") (group_tables listing [])).rule_count ≡ 1)
    × ((table_at (codes "ip:f") (group_tables listing [])).hit_counters ≡ drops ∷ [])
unfolding text_eq
grouped = group_tables_lem (codes "ip:f") listing
