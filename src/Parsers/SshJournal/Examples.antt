-- ===== src/Parsers/SshJournal/Examples.antt =====
-- A journal of four lines on a host whose journal does not reach back a day.
use host_health_mcp.Base.{◌≡◌, codes, Bytes, Option, none, some, List, [], ◌∷◌}
use host_health_mcp.Base.Result.{ok}
use host_health_mcp.Helper.Deadline.{ℤ, pos}
use host_health_mcp.Helper.Exec.{Child}
use host_health_mcp.Parsers.SshJournal.{SshCounts, Boot, ssh_journal_counts}

abbrev prints : List Bytes → Child
prints lines = record {
  path = codes "journalctl";
  argv = [];
  start = none;
  writes = [];
  reads = [];
  stdout_lines = lines;
  scan_error = none;
  stderr = [];
  wait = λ _. none;
}

abbrev journal : List Bytes
journal =
    codes "Accepted publickey for a"
    ∷ codes "Failed password for invalid user b"
    ∷ codes "Connection closed by 192.0.2.1 [preauth]"
    ∷ codes "Disconnected from 192.0.2.1"
    ∷ []

abbrev as_number : Bytes → Option ℤ
as_number s = some (pos 1_000)

abbrev boots : Bytes → Option (List Boot)
boots s = some (record { index = pos 0; first_entry = pos 90_000_000_000 } ∷ [])

abbrev CountsTo : ℤ → Option Bytes → Child → Child → (out : SshCounts) → Type 0
CountsTo now stat lines list_boots out =
    ssh_journal_counts (λ s. s) as_number (λ s. s) boots now stat lines list_boots ≡ ok out
