-- ===== src/Parsers/SshJournal/Window.antt =====
-- When daemon/internal/helper/ops/ssh_journal.go says that the journal does not reach back 24 hours.
use host_health_mcp.Base.{ℕ, ◌+◌, ◌-◌, ◌≤◌, ◌<◌, ◌^◌, ◌≡◌, ◌&&◌, arith, ltb, leb}
use host_health_mcp.Helper.Deadline.{pos}
use host_health_mcp.Parsers.Int64.{◌-ℤ◌, ltb_ℤ, wrap64, wrap64_small, pos-sub-pos, ltb_ℤ-pos}
use host_health_mcp.Parsers.SshJournal.{ssh_journal_truncated}

-- The difference of two times in range, against a threshold.
past_threshold :
    (a b t : ℕ)
    → a < 2 ^ 63
    → b < 2 ^ 63
    → t < 2 ^ 63
    → ltb_ℤ (pos t) (wrap64 (pos a -ℤ pos b)) ≡ ltb (b + t) a
unfolding ltb_ℤ wrap64 ◌-ℤ◌
past_threshold a b t ha hb ht = ground arith

-- With times from a day past the epoch on, the window is told to be cut short exactly if the host was up
-- at its beginning and the oldest entry is from more than ten minutes after it.
pub ssh_journal_truncated_lem :
    (btime oldest now : ℕ)
    → 86_400 ≤ now
    → now < 2 ^ 63
    → oldest < 2 ^ 63
    → ssh_journal_truncated (pos btime) (pos oldest) (pos now)
      ≡ (leb btime (now - 86_400) && ltb (now - 86_400 + 600) oldest)
unfolding ssh_journal_truncated
ssh_journal_truncated_lem btime oldest now lo hn ho =
    rw
      (
        pos-sub-pos 86_400 now lo,
        wrap64_small (now - 86_400) (omega (arith, hn)),
        ltb_ℤ-pos,
        past_threshold oldest (now - 86_400) 600 ho (omega (arith, hn)) (omega arith),
      )
      ground arith
