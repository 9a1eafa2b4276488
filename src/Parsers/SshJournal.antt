-- ===== src/Parsers/SshJournal.antt =====
-- daemon/internal/helper/ops/ssh_journal.go: the SSH logins of the last 24 hours in the journal, and
-- whether it reaches back that far.
-- `trim` is bytes.TrimSpace, `parse_int` strconv.ParseInt of 64 bits, and `boots` json.Unmarshal of
-- `journalctl --list-boots`. An int64 is an integer in its range.
pub mod Counts
pub mod Window
mod Examples
use host_health_mcp.Base.{
  ℕ, suc, ◌+◌, ◌/◌, Bytes, codes, text_eq, Bool, true, false, ◌&&◌, ◌||◌, Option, none, some, List,
  [], ◌∷◌, not, drop, ◌==◌, if◌then◌else◌,
}
use host_health_mcp.Base.Result.{Result, ok, err}
use host_health_mcp.Base.Maybe.{◌>>=◌}
use host_health_mcp.Helper.Deadline.{ℤ, pos, negsuc}
use host_health_mcp.Helper.Exec.{Child, StartError, run, run_streaming}
use host_health_mcp.Firewall.Lookup.Passes.{is_tool_missing}
use host_health_mcp.Helper.Server.{DispatchError}
use host_health_mcp.Parsers.Int64.{◌-ℤ◌, ltb_ℤ, wrap64}
use host_health_mcp.Parsers.Scan.{has_prefix, contains}
use host_health_mcp.Parsers.Mdraid.{has_suffix}

pub record SshCounts : Type 0 where
  pub present : Bool
  pub accepted : ℕ
  pub failed : ℕ
  pub truncated : Bool
  pub oldest_entry : ℤ
  pub boot : ℤ

abbrev pub no_counts : SshCounts
no_counts = record {
  present = false;
  accepted = 0;
  failed = 0;
  truncated = false;
  oldest_entry = pos 0;
  boot = pos 0;
}

pub data LineClass : Type 0 where
  other_line : LineClass
  accepted_line : LineClass
  failed_line : LineClass

abbrev is_preauth : Bytes → Bool
is_preauth line =
    has_suffix (codes "[preauth]") line
    && (has_prefix (codes "Disconnected from ") line
        || has_prefix (codes "Connection closed by ") line)

unfoldable pub classify_ssh_journal_line : Bytes → LineClass
classify_ssh_journal_line line =
    if has_prefix (codes "Accepted ") line
    then accepted_line
    else if has_prefix (codes "Failed ") line
    then failed_line
    else if is_preauth line
    then failed_line
    else if contains (codes "kex_exchange_identification") line
    then failed_line
    else other_line

abbrev pub count_class : LineClass → SshCounts → SshCounts
count_class other_line out = out
count_class accepted_line out = record out { accepted = suc out.accepted }
count_class failed_line out = record out { failed = suc out.failed }

unfoldable pub visit : Bytes → SshCounts → SshCounts
visit line out = count_class (classify_ssh_journal_line line) out

abbrev pub window_s : ℤ
window_s = pos 86_400

abbrev pub threshold_s : ℤ
threshold_s = pos 600

unfoldable pub ssh_journal_truncated : ℤ → ℤ → ℤ → Bool
ssh_journal_truncated btime oldest now =
    let cutoff = wrap64 (now -ℤ window_s) in
    if ltb_ℤ cutoff btime then false else ltb_ℤ threshold_s (wrap64 (oldest -ℤ cutoff))

-- `/` of an int64 by a million, towards zero.
unfoldable pub whole_seconds : ℤ → ℤ
whole_seconds (pos n) = pos (n / 1_000_000)
whole_seconds (negsuc n) = pos 0 -ℤ pos (suc n / 1_000_000)

abbrev onto_line : ℕ → List Bytes → List Bytes
onto_line c [] = (c ∷ []) ∷ []
onto_line c (l ∷ ls) = (c ∷ l) ∷ ls

-- `bytes.Split(data, "\n")`
unfoldable pub split_lines : Bytes → List Bytes
split_lines [] = [] ∷ []
split_lines (c ∷ cs) =
    let rest = split_lines cs in if c == b'\n' then [] ∷ rest else onto_line c rest

pub record Boot : Type 0 where
  pub index : ℤ
  pub first_entry : ℤ

abbrev is_zero : ℤ → Bool
is_zero (pos n) = n == 0
is_zero (negsuc n) = false

unfoldable pub current_boot : List Boot → Option ℤ
current_boot [] = none
current_boot (b ∷ bs) =
    let rest = current_boot bs in if is_zero b.index then some b.first_entry else rest

abbrev pub with_probe : ℤ → Option (ℤ × ℤ) → SshCounts → SshCounts
with_probe now none out = out
with_probe now (some (btime, oldest)) out = record out {
  boot = btime;
  oldest_entry = oldest;
  truncated = ssh_journal_truncated btime oldest now;
}

abbrev pub reply : ℤ → Option (ℤ × ℤ) → Option StartError → SshCounts → Result StartError SshCounts
reply now probe none out = ok (with_probe now probe (record out { present = true }))
reply now probe (some e) out = if is_tool_missing e then ok no_counts else err e

module _ (trim : Bytes → Bytes) (parse_int : Bytes → Option ℤ) where
  unfoldable pub btime_of_lines : List Bytes → Option ℤ
  btime_of_lines [] = none
  btime_of_lines (l ∷ ls) =
      let rest = btime_of_lines ls in
      if has_prefix (codes "btime ") l then parse_int (trim (drop 6 l)) else rest

  unfoldable pub parse_btime_from_proc_stat : Bytes → Option ℤ
  parse_btime_from_proc_stat stat = btime_of_lines (split_lines stat)

  module _ (sha256_hex : Bytes → Bytes) (boots : Bytes → Option (List Boot)) where
    abbrev listed : Bytes × Option DispatchError → Option Bytes
    listed (stdout, none) = some stdout
    listed (stdout, some e) = none

    -- `probeSshJournalTruncation`: the boot time and the oldest entry, if both are known; `stat` is
    -- /proc/stat if it can be read.
    unfoldable pub probe_truncation : Option Bytes → Child → Option (ℤ × ℤ)
    probe_truncation stat journalctl = do
      text ← stat
      btime ← parse_btime_from_proc_stat text
      stdout ← listed (run sha256_hex journalctl)
      bs ← boots stdout
      oldest ← current_boot bs
      some (btime, whole_seconds oldest)

    -- `SshJournalCounts`: one journalctl for the lines, another for the boots.
    unfoldable pub ssh_journal_counts :
        ℤ → Option Bytes → Child → Child → Result StartError SshCounts
    ssh_journal_counts now stat lines list_boots =
        let ((_, e), out) = run_streaming sha256_hex visit lines no_counts in
        reply now (probe_truncation stat list_boots) e out
