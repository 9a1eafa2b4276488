-- ===== src/Parsers/AccessLog/Read.antt =====
-- How daemon/internal/helper/ops/nginx_apache.go finds a log: `SetAccessLogPrefixes`,
-- `checkAccessLogPath` and `readAccessLogTail`.
-- `clean` is filepath.Clean and `trim` strings.TrimSpace. An open file is what fstat, seek and read
-- answer of it.
use host_health_mcp.Base.{
  ℕ, zero, suc, Bytes, codes, Bool, false, not, ◌||◌, Option, none, some, List, [], ◌∷◌, ◌++◌, ◌==◌,
  if◌then◌else◌,
}
use host_health_mcp.Base.Result.{Result, ok, err}
use host_health_mcp.Helper.Deadline.{ℤ, pos, negsuc}
use host_health_mcp.Parsers.Int64.{pos_part, ◌-ℤ◌, ltb_ℤ, wrap64}
use host_health_mcp.Parsers.Scan.{has_prefix}
use host_health_mcp.Parsers.Mdraid.{has_suffix}
use host_health_mcp.Parsers.AccessLog.{cut_byte}

-- `ended` is io.EOF or io.ErrUnexpectedEOF.
pub data ReadEnd : Type 0 where
  ended : ReadEnd
  failed : Bytes → ReadEnd

pub record LogFile : Type 0 where
  pub stat_error : Option Bytes
  pub regular : Bool
  pub size : ℕ
  pub seek_error : ℤ → Option Bytes
  -- io.ReadFull into a buffer of a length, from an offset.
  pub read_full : ℤ → ℕ → Bytes × Option ReadEnd

pub data TailError : Type 0 where
  not_allowed : Bytes → TailError
  not_absolute : TailError
  from_system : Bytes → TailError
  not_regular : TailError
  tail_not_positive : TailError

abbrev pub default_prefixes : List Bytes
default_prefixes = codes "/var/log/" ∷ []

abbrev pub is_abs : Bytes → Bool
is_abs p = has_prefix (codes "/") p

abbrev with_slash : Bytes → Bytes
with_slash p = if has_suffix (codes "/") p then p else p ++ codes "/"

module _ (trim : Bytes → Bytes) where
  unfoldable pub clean_prefixes : List Bytes → List Bytes
  clean_prefixes [] = []
  clean_prefixes (p ∷ ps) =
      let rest = clean_prefixes ps in if is_abs (trim p) then with_slash (trim p) ∷ rest else rest

  abbrev replaced : List Bytes → List Bytes → List Bytes
  replaced [] before = before
  replaced (p ∷ ps) before = p ∷ ps

  -- `SetAccessLogPrefixes`, from the list before to the one after.
  unfoldable pub set_access_log_prefixes : List Bytes → List Bytes → List Bytes
  set_access_log_prefixes prefixes before = replaced (clean_prefixes prefixes) before

module _ (clean : Bytes → Bytes) where
  unfoldable pub is_under : List Bytes → Bytes → Bool
  is_under [] path = false
  is_under (pre ∷ ps) path = has_prefix (clean pre ++ codes "/") path || is_under ps path

  unfoldable pub check_access_log_path : List Bytes → Bytes → Option TailError
  check_access_log_path prefixes path =
      if not (is_abs path)
      then some not_absolute
      else if is_under prefixes (clean path)
      then none
      else some (not_allowed (clean path))

abbrev pub behind_first : Option (Bytes × Bytes) → Bytes
behind_first none = []
behind_first (some (_, after)) = after

abbrev pub trimmed : Bool → Bytes × Option ReadEnd → Result TailError Bytes
trimmed truncated (buf, some (failed e)) = err (from_system e)
trimmed truncated (buf, some ended) =
    ok (if truncated then behind_first (cut_byte b'\n' buf) else buf)
trimmed truncated (buf, none) = ok (if truncated then behind_first (cut_byte b'\n' buf) else buf)

-- From a successful seek on: a negative or no budget is refused, or else as much is read as there is.
abbrev pub read_from : LogFile → ℕ → ℤ → Bool → ℤ → Result TailError Bytes
read_from f size off truncated (negsuc n) = err tail_not_positive
read_from f size off truncated (pos zero) = err tail_not_positive
read_from f size off truncated (pos (suc n)) =
    let left = wrap64 (pos size -ℤ off) in
    let want : ℤ = if ltb_ℤ left (pos (suc n)) then left else pos (suc n) in
    trimmed truncated (f.read_full off (pos_part want))

abbrev pub sought : Option Bytes → LogFile → ℕ → ℤ → Bool → ℤ → Result TailError Bytes
sought (some e) f size off truncated tail = err (from_system e)
sought none f size off truncated tail = read_from f size off truncated tail

unfoldable pub seek_tail : LogFile → ℕ → Bool → ℤ → ℤ → Result TailError Bytes
seek_tail f size truncated off tail =
    sought (if ltb_ℤ (pos 0) off then f.seek_error off else none) f size off truncated tail

unfoldable pub read_sized : LogFile → ℕ → ℤ → Result TailError Bytes
read_sized f size tail =
    if size == 0
    then ok []
    else let truncated = ltb_ℤ tail (pos size) in
      seek_tail f size truncated (if truncated then wrap64 (pos size -ℤ tail) else pos 0) tail

-- `readAccessLogTail` from a successful fstat on.
unfoldable pub read_regular : LogFile → ℤ → Result TailError Bytes
read_regular f tail = if f.regular then read_sized f f.size tail else err not_regular

abbrev statted : Option Bytes → LogFile → ℤ → Result TailError Bytes
statted (some e) f tail = err (from_system e)
statted none f tail = read_regular f tail

unfoldable pub read_access_log_tail : Result Bytes LogFile → ℤ → Result TailError Bytes
read_access_log_tail (err e) tail = err (from_system e)
read_access_log_tail (ok f) tail = statted f.stat_error f tail
