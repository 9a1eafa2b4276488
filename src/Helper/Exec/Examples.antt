-- ===== src/Helper/Exec/Examples.antt =====
-- daemon/internal/helper/exec/exec.go at a child that prints five bytes and is killed by a SIGTERM.
use host_health_mcp.Base.{
  ◌≡◌, ◌≤◌, ◌<◌, refl, Bytes, codes, Bool, true, false, none, some, [], ◌∷◌, length, take, ltb, All,
  if◌then◌else◌,
}
use host_health_mcp.Helper.Deadline.{negsuc}
use host_health_mcp.Helper.Exec.{
  max_stdout, stderr_prefix_max, sanitise_stderr_prefix, past_cap, exited, Child, classify,
  classified, run_error, printed, run, read_loop, waited, run_capped, capped_from,
}
use host_health_mcp.Helper.Exec.Capture.{delivered, run_capped_lem}
use host_health_mcp.Helper.Exec.Report.{run_lem, Printable, sanitise_stderr_prefix-Printable}

abbrev hash : Bytes → Bytes
hash s = s

abbrev yes_cmd : Child
yes_cmd = record {
  path = codes "/usr/bin/yes";
  argv = codes "yes" ∷ [];
  start = none;
  writes = codes "y" ∷ codes "y" ∷ [];
  reads =
      record { bytes = codes "yyy"; last = false }
      ∷ record { bytes = codes "yy"; last = false }
      ∷ [];
  stdout_lines = [];
  scan_error = none;
  stderr = codes "Terminated";
  wait = λ signalled. if signalled then some (exited (negsuc 0)) else none;
}

-- A cap of four bytes is reached, the child is signalled, and its end is reported as a failure.
killed :
    run_capped hash 4 yes_cmd ≡ (codes "yyyy", true, waited hash (some (exited (negsuc 0))) yes_cmd)
unfolding capped_from read_loop host_health_mcp.Helper.Exec.keep_room
killed = refl

run_capped_lem_example :
    (let (buf, truncated, e) = run_capped hash 4 yes_cmd in
      (buf ≡ take 4 (delivered yes_cmd.reads))
      × (truncated ≡ ltb 4 (length (delivered yes_cmd.reads)))
      × ((signalled : Bool) × (e ≡ waited hash (yes_cmd.wait signalled) yes_cmd)
          × (signalled ≡ true → truncated ≡ true)))
run_capped_lem_example = run_capped_lem hash 4 yes_cmd refl

yes_is_cut :
    ((run hash yes_cmd).0 ≡ take max_stdout (codes "yy"))
    × (max_stdout < 2 → (run hash yes_cmd).1 ≡ some (classify hash past_cap yes_cmd))
    × (2 ≤ max_stdout → (run hash yes_cmd).1 ≡ none)
yes_is_cut = run_lem hash yes_cmd

Printable-noise :
    All Printable (sanitise_stderr_prefix (27 ∷ codes "[31m"))
    × (length (sanitise_stderr_prefix (27 ∷ codes "[31m")) ≡ 5)
Printable-noise = sanitise_stderr_prefix-Printable (27 ∷ codes "[31m")
