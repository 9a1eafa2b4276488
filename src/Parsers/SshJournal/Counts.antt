-- ===== src/Parsers/SshJournal/Counts.antt =====
-- What daemon/internal/helper/ops/ssh_journal.go counts over a whole run of journalctl.
use host_health_mcp.Base.{
  ℕ, ◌+◌, ◌≡◌, Bytes, Bool, true, false, Option, none, some, List, [], ◌∷◌, if◌then◌else◌,
}
use host_health_mcp.Helper.Deadline.{ℤ}
use host_health_mcp.Helper.Exec.{Child}
use host_health_mcp.Parsers.SshJournal.{
  SshCounts, LineClass, other_line, accepted_line, failed_line, classify_ssh_journal_line,
  ssh_journal_truncated,
}

abbrev pub is_accepted : LineClass → Bool
is_accepted accepted_line = true
is_accepted failed_line = false
is_accepted other_line = false

abbrev pub is_failed : LineClass → Bool
is_failed failed_line = true
is_failed accepted_line = false
is_failed other_line = false

abbrev pub count : (LineClass → Bool) → List Bytes → ℕ
count p [] = 0
count p (l ∷ ls) = (if p (classify_ssh_journal_line l) then 1 else 0) + count p ls

-- What a reply tells of a child.
abbrev pub Counted : Child → SshCounts → Type 0
Counted lines out =
    (out.present ≡ true)
    × (out.accepted ≡ count is_accepted lines.stdout_lines)
    × (out.failed ≡ count is_failed lines.stdout_lines)

abbrev pub truncated_by : ℤ → Option (ℤ × ℤ) → Bool
truncated_by now none = false
truncated_by now (some (btime, oldest)) = ssh_journal_truncated btime oldest now
