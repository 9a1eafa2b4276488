-- ===== src/Parsers/Mdraid.antt =====
-- daemon/internal/helper/ops/mdraid.go: the state of a RAID array from `mdadm --detail --export`, with
-- /proc/mdstat for a progress that it does not tell. `F` is float64, `parse_float` strconv.ParseFloat,
-- and `percent` the match of mdstatPercentRE.
pub mod Progress
use host_health_mcp.Base.{
  ℕ, ◌+◌, ◌-◌, Bytes, codes, text_eq, Bool, true, false, not, ◌&&◌, ◌||◌, Option, none, some, List,
  [], ◌∷◌, ◌++◌, length, drop, ltb, leb, ◌==◌, if◌then◌else◌,
}
use host_health_mcp.Base.Result.{Result, ok, err}
use host_health_mcp.Helper.Exec.{Child, run}
use host_health_mcp.Helper.Server.{DispatchError}
use host_health_mcp.Parsers.Scan.{Scan, has_prefix, is_digit, all_bytes}

pub record MdraidDetail (F : Type 0) : Type 0 where
  pub array_name : Bytes
  pub level : Bytes
  pub state : Bytes
  pub devices : List Bytes
  pub degraded : Bool
  pub sync_progress : Option F

pub data MdraidError : Type 0 where
  bad_name : MdraidError
  not_run : DispatchError → MdraidError
  not_scanned : Bytes → MdraidError

-- `^md[0-9]+$`
unfoldable pub is_array_name : Bytes → Bool
is_array_name (m ∷ d ∷ n ∷ ns) = m == b'm' && d == b'd' && all_bytes is_digit (n ∷ ns)
is_array_name _ = false

-- A line at its first `=`.
unfoldable pub cut_equals : Bytes → Option (Bytes × Bytes)
cut_equals [] = none
cut_equals (c ∷ cs) =
    let rest = cut_equals cs in
    if c == b'=' then some ([], cs) else elim rest [ none ↦ none | some (k, v) ↦ some (c ∷ k, v) ]

unfoldable pub has_suffix : Bytes → Bytes → Bool
has_suffix p s = leb (length p) (length s) && text_eq (drop (length s - length p) s) p

unfoldable pub is_device_key : Bytes → Bool
is_device_key key =
    ltb 10 (length key) && has_prefix (codes "MD_DEVICE_") key && has_suffix (codes "_DEV") key

-- What the loop over the lines changes; `sawResyncPct` is that the progress is there.
pub record Export (F : Type 0) : Type 0 where
  pub level : Bytes
  pub state : Bytes
  pub devices : List Bytes
  pub degraded : Bool
  pub resync_action : Bytes
  pub resync_pct : Option F

abbrev pub no_export : {F : Type 0} → Export F
no_export = record {
  level = [];
  state = [];
  devices = [];
  degraded = false;
  resync_action = [];
  resync_pct = none;
}

abbrev pub is_running : Bytes → Bool
is_running [] = false
is_running (c ∷ cs) = not (text_eq (c ∷ cs) (codes "idle"))

abbrev or_unknown : Bytes → Bytes
or_unknown [] = codes "unknown"
or_unknown (c ∷ cs) = c ∷ cs

module _ {F : Type 0} (parse_float : Bytes → Option F) where
  abbrev pub newer : Option F → Option F → Option F
  newer none before = before
  newer (some pct) before = some pct

  unfoldable pub set_key : Bytes → Bytes → Export F → Export F
  set_key key val x =
      if text_eq key (codes "MD_LEVEL")
      then record x { level = val }
      else if text_eq key (codes "MD_DEGRADED")
      then record x { degraded = not (text_eq val (codes "0")) }
      else if text_eq key (codes "MD_ARRAY_STATE")
      then record x { state = val }
      else if text_eq key (codes "MD_RESYNC_ACTION")
      then record x { resync_action = val }
      else if text_eq key (codes "MD_RESYNC_PCT")
      then record x { resync_pct = newer (parse_float val) x.resync_pct }
      else if is_device_key key
      then record x { devices = x.devices ++ (val ∷ []) }
      else x

  abbrev pub put : Option (Bytes × Bytes) → Export F → Export F
  put none x = x
  put (some ([], val)) x = x
  put (some (c ∷ cs, val)) x = set_key (c ∷ cs) val x

  unfoldable pub read_export : List Bytes → Export F → Export F
  read_export [] x = x
  read_export (l ∷ ls) x = read_export ls (put (cut_equals l) x)

  module _ (percent : Bytes → Option Bytes) where
    -- The lines of an array's block, up to its progress.
    unfoldable pub find_progress : List Bytes → Option F
    find_progress [] = none
    find_progress ([] ∷ ls) = none
    find_progress ((c ∷ cs) ∷ ls) =
        let rest = find_progress ls in
        if ltb 2 (length (c ∷ cs)) && not (c == b' ') && not (c == b'\t')
        then none
        else elim (percent (c ∷ cs)) [ none ↦ rest | some m ↦ parse_float m ]

    abbrev ends_name : Bytes → Bool
    ends_name [] = false
    ends_name (c ∷ cs) = c == b' ' || c == b':'

    abbrev pub is_header : Bytes → Bytes → Bool
    is_header name line =
        ltb (length name + 2) (length line)
        && has_prefix name line
        && ends_name (drop (length name) line)

    unfoldable pub read_mdstat_progress : Bytes → List Bytes → Option F
    read_mdstat_progress name [] = none
    read_mdstat_progress name (l ∷ ls) =
        if is_header name l then find_progress ls else read_mdstat_progress name ls

    abbrev pub mdstat_progress : Bytes → Option (List Bytes) → Option F
    mdstat_progress name none = none
    mdstat_progress name (some ls) = read_mdstat_progress name ls

    abbrev pub or_zero : F → Option F → F
    or_zero zero_pct none = zero_pct
    or_zero zero_pct (some pct) = pct

    -- The progress of a reply: what was exported, or else that of /proc/mdstat while something runs.
    unfoldable pub progress_of : F → Bytes → Option (List Bytes) → Export F → Option F
    progress_of zero_pct name mdstat x = elim x.resync_pct [
      | some pct ↦ some pct
      | none ↦
          if is_running x.resync_action
          then some (or_zero zero_pct (mdstat_progress name mdstat))
          else none
    ]

    unfoldable pub mdraid_detail_from_export :
        F
        → Option (List Bytes)
        → Bytes
        → List Bytes × Option Bytes
        → Result MdraidError (MdraidDetail F)
    mdraid_detail_from_export zero_pct mdstat name (ls, some e) = err (not_scanned e)
    mdraid_detail_from_export zero_pct mdstat name (ls, none) =
        let x = read_export ls no_export in
        ok (record {
          array_name = name;
          level = x.level;
          state = or_unknown x.state;
          devices = x.devices;
          degraded = x.degraded;
          sync_progress = progress_of zero_pct name mdstat x;
        })

    abbrev detailed :
        F
        → Option (List Bytes)
        → Scan
        → Bytes
        → Bytes × Option DispatchError
        → Result MdraidError (MdraidDetail F)
    detailed zero_pct mdstat scan name (stdout, some e) = err (not_run e)
    detailed zero_pct mdstat scan name (stdout, none) =
        mdraid_detail_from_export zero_pct mdstat name (scan stdout)

    -- `MdraidDetail`; `mdstat` is the lines of /proc/mdstat, if it can be read.
    unfoldable pub mdraid_detail :
        (Bytes → Bytes)
        → F
        → Option (List Bytes)
        → Scan
        → (Bytes → Child)
        → Bytes
        → Result MdraidError (MdraidDetail F)
    mdraid_detail sha256_hex zero_pct mdstat scan mdadm param =
        if is_array_name param
        then detailed zero_pct mdstat scan param (run sha256_hex (mdadm (codes "/dev/" ++ param)))
        else err bad_name
