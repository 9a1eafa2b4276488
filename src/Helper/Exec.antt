-- ===== src/Helper/Exec.antt =====
-- daemon/internal/helper/exec/exec.go: `cappedWriter`, `Run`, `RunCapped`, `RunStreaming`, `classify`
-- and `sanitiseStderrPrefix`.
-- A child process is what its pipes deliver and what waiting for it says; the timers that turn a
-- SIGTERM into a SIGKILL are left out, and bufio's splitting into lines is part of the child.
pub mod Capture
pub mod Report
mod Examples
use host_health_mcp.Base.{
  ℕ, suc, ◌+◌, ◌-◌, Bytes, codes, Bool, true, false, ◌&&◌, ◌||◌, Option, none, some, List, [], ◌∷◌,
  ◌++◌, map, length, take, ltb, leb, ◌==◌, if◌then◌else◌,
}
use host_health_mcp.Helper.Deadline.{ℤ, negsuc}
use host_health_mcp.Helper.Ops.{Code, deadline, output_truncated, tool_missing, tool_failed}
use host_health_mcp.Helper.Server.{DispatchError}

abbrev pub max_stdout : ℕ
max_stdout = 262_144

abbrev pub stderr_prefix_max : ℕ
stderr_prefix_max = 200

unfoldable pub sanitise_byte : ℕ → ℕ
sanitise_byte c =
    if c == 10 || c == 9 || c == 32 then c else if leb 0x20 c && ltb c 0x7f then c else b'.'

unfoldable pub sanitise_stderr_prefix : Bytes → Bytes
sanitise_stderr_prefix b =
    map sanitise_byte (if ltb stderr_prefix_max (length b) then take stderr_prefix_max b else b)

pub record CappedWriter : Type 0 where
  pub buf : Bytes
  pub max : ℕ
  pub truncated : Bool

-- `Write`, and whether it returned no error.
unfoldable pub write : Bytes → CappedWriter → CappedWriter × Bool
write p w =
    let room = w.max - length w.buf in
    if ltb w.max (length w.buf + length p)
    then (
      record w { buf = if ltb 0 room then w.buf ++ take room p else w.buf; truncated = true },
      false,
    )
    else (record w { buf = w.buf ++ p }, true)

-- os/exec copies what the child writes, and stops at the first error.
unfoldable pub copy : List Bytes → CappedWriter → CappedWriter
copy [] w = w
copy (p ∷ ps) w = let (w', fine) = write p w in let rest = copy ps w' in if fine then rest else w'

-- What `classify` tells apart: an error that is `context.DeadlineExceeded`, a `truncatedError`, one
-- that is `exec.ErrNotFound`, an `ExitError` with its code, and the rest.
pub data RunError : Type 0 where
  past_deadline : RunError
  past_cap : RunError
  not_found : RunError
  exited : ℤ → RunError
  other : RunError

-- One `Read` of a pipe: its bytes, and whether it came with an error (the end of the file too).
pub record Read : Type 0 where
  pub bytes : Bytes
  pub last : Bool

pub record Child : Type 0 where
  pub path : Bytes
  pub argv : List Bytes
  pub start : Option RunError
  pub writes : List Bytes
  pub reads : List Read
  pub stdout_lines : List Bytes
  pub scan_error : Option Bytes
  pub stderr : Bytes
  -- What waiting reports, after a SIGTERM from us or without one.
  pub wait : Bool → Option RunError

-- The loop of `RunCapped`: the bytes kept, whether some were not, and whether the child was
-- signalled.
unfoldable pub keep_room : ℕ → Bytes → Bytes → Bytes × Bool
keep_room max_bytes buf chunk =
    let room = max_bytes - length buf in
    if length chunk == 0
    then (buf, false)
    else if room == 0
    then (buf, true)
    else if ltb room (length chunk)
    then (buf ++ take room chunk, true)
    else (buf ++ chunk, false)

unfoldable pub read_loop : ℕ → Bytes → List Read → Bytes × Bool × Bool
read_loop max_bytes buf [] = (buf, false, false)
read_loop max_bytes buf (r ∷ rs) =
    let (buf', truncated) = keep_room max_bytes buf r.bytes in
    let rest = read_loop max_bytes buf' rs in
    if r.last then (buf', truncated, false) else if truncated then (buf', true, true) else rest

-- `cmd.Run`: what it returns when the child could not be started, or else when it ended.
abbrev pub run_error : Child → Option RunError
run_error child = elim child.start [ none ↦ child.wait false | some e ↦ some e ]

abbrev pub printed : Child → List Bytes
printed child = elim child.start [ none ↦ child.writes | some _ ↦ [] ]

-- `visit` changes a state of its own, one line after the other.
unfoldable pub visit_lines : {S : Type 0} → (Bytes → S → S) → List Bytes → S → ℕ × S
visit_lines visit [] s = (0, s)
visit_lines visit (l ∷ ls) s = let (n, t) = visit_lines visit ls (visit l s) in (suc n, t)

-- An error of `RunCapped` and `RunStreaming`: the binary is missing, `cmd.Start` failed otherwise,
-- or the child was run and something failed.
pub data StartError : Type 0 where
  no_tool : DispatchError → StartError
  no_start : StartError
  failed_tool : DispatchError → StartError

module _ (sha256_hex : Bytes → Bytes) where
  unfoldable pub fault : Child → Code → Bytes → Option ℤ → DispatchError
  fault child code message tool_exit = record {
    code = code;
    message = message;
    stderr_bytes = length child.stderr;
    stderr_sha256 = sha256_hex child.stderr;
    stderr_prefix = sanitise_stderr_prefix child.stderr;
    tool_exit = tool_exit;
    argv = child.argv;
  }

  unfoldable pub missing : Child → DispatchError
  missing child = record {
    code = tool_missing;
    message = child.path ++ codes ": not found";
    stderr_bytes = 0;
    stderr_sha256 = [];
    stderr_prefix = [];
    tool_exit = none;
    argv = child.argv;
  }

  unfoldable pub classify : RunError → Child → DispatchError
  classify past_deadline child = fault child deadline (codes "deadline exceeded") none
  classify past_cap child = fault child output_truncated (codes "stdout exceeded 262144 bytes") none
  classify not_found child = missing child
  classify (exited n) child =
      fault child tool_failed (child.path ++ codes " exited non-zero") (some n)
  classify other child =
      fault child tool_failed (child.path ++ codes " exited non-zero") (some (negsuc 0))

  abbrev pub classified : Option RunError → Child → Option DispatchError
  classified none child = none
  classified (some e) child = some (classify e child)

  unfoldable pub run : Child → Bytes × Option DispatchError
  run child =
      let w = copy (printed child) (record { buf = []; max = max_stdout; truncated = false }) in
      (w.buf, classified (if w.truncated then some past_cap else run_error child) child)

  unfoldable pub start_error : RunError → Child → StartError
  start_error not_found child = no_tool (missing child)
  start_error _ child = no_start

  abbrev pub waited : Option RunError → Child → Option StartError
  waited none child = none
  waited (some e) child = some (failed_tool (classify e child))

  -- `RunCapped` from the answer of `cmd.Start` on.
  unfoldable pub capped_from : ℕ → Child → Option RunError → Bytes × Bool × Option StartError
  capped_from max_bytes child (some e) = ([], false, some (start_error e child))
  capped_from max_bytes child none =
      let (buf, truncated, signalled) = read_loop max_bytes [] child.reads in
      (buf, truncated, waited (child.wait signalled) child)

  abbrev pub run_capped : ℕ → Child → Bytes × Bool × Option StartError
  run_capped max_bytes child = capped_from max_bytes child child.start

  unfoldable pub after_scan : Option RunError → Child → Option StartError
  after_scan (some e) child = some (failed_tool (classify e child))
  after_scan none child = elim child.scan_error [
    | none ↦ none
    | some text ↦
        some (failed_tool (fault child tool_failed (codes "stdout scanner: " ++ text) none))
  ]

  unfoldable pub run_streaming :
      {S : Type 0} → (Bytes → S → S) → Child → S → (ℕ × Option StartError) × S
  run_streaming visit child s = elim child.start [
    | some e ↦ ((0, some (start_error e child)), s)
    | none ↦
        let (n, t) = visit_lines visit child.stdout_lines s in
        ((n, after_scan (child.wait false) child), t)
  ]
