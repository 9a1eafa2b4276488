-- ===== src/Parsers/Wireguard.antt =====
-- daemon/internal/helper/ops/wireguard.go: the interfaces and peers of `wg show all dump`, without its
-- private and preshared keys. `parse_int` is strconv.Atoi and strconv.ParseInt of 64 bits.
pub mod Secrets
pub mod Panics
mod Examples
use host_health_mcp.Base.{
  ℕ, ◌+◌, Bytes, codes, text_eq, Bool, true, false, ◌&&◌, ◌||◌, Option, none, some, List, [], ◌∷◌,
  ◌++◌, length, ◌==◌, if◌then◌else◌,
}
use host_health_mcp.Base.Result.{Result, ok, err, ◌>>=◌}
use host_health_mcp.Helper.Deadline.{ℤ, pos}
use host_health_mcp.Helper.Exec.{Child, run}
use host_health_mcp.Helper.Server.{DispatchError}
use host_health_mcp.Parsers.Scan.{Scan, is_alphanumeric, all_bytes, split_last}

pub record Peer : Type 0 where
  pub public_key : Bytes
  pub endpoint : Bytes
  pub allowed_ips : Bytes
  pub latest_handshake : ℤ
  pub rx_bytes : ℤ
  pub tx_bytes : ℤ
  pub persistent_ka : ℤ

pub record Interface : Type 0 where
  pub name : Bytes
  pub public_key : Bytes
  pub listen_port : ℤ
  pub fwmark : Bytes
  pub peers : List Peer

-- `no_interface` is the panic of a row that is met while `current` is nil.
pub data WgError : Type 0 where
  not_run : DispatchError → WgError
  interface_key : WgError
  peer_key : WgError
  columns : ℕ → WgError
  not_scanned : Bytes → WgError
  no_interface : WgError

abbrev is_base64 : ℕ → Bool
is_base64 c = is_alphanumeric c || c == b'+' || c == b'/'

abbrev is_key_body : Bytes → Bool
is_key_body s = (length s == 42 || length s == 43) && all_bytes is_base64 s

-- `^[A-Za-z0-9+/]{42,43}=?$`
unfoldable pub is_public_key : Bytes → Bool
is_public_key s = elim (split_last s) [
  | none ↦ false
  | some (front, last) ↦ is_key_body (if last == b'=' then front else s)
]

abbrev pub onto_first : ℕ → List Bytes → List Bytes
onto_first c [] = (c ∷ []) ∷ []
onto_first c (w ∷ ws) = (c ∷ w) ∷ ws

-- `strings.Split(line, "\t")`
unfoldable pub split_tabs : Bytes → List Bytes
split_tabs [] = [] ∷ []
split_tabs (c ∷ cs) =
    let rest = split_tabs cs in if c == b'\t' then [] ∷ rest else onto_first c rest

-- What the loop over the lines changes.
pub record Dump : Type 0 where
  pub interfaces : List Interface
  pub current_name : Bytes
  pub current : Option Interface

abbrev pub no_dump : Dump
no_dump = record { interfaces = []; current_name = []; current = none }

abbrev new_interface : Bytes → Interface
new_interface name = record {
  name = name;
  public_key = [];
  listen_port = pos 0;
  fwmark = [];
  peers = [];
}

abbrev pub with_current : Option Interface → List Interface → List Interface
with_current none done = done
with_current (some i) done = done ++ (i ∷ [])

-- A row of another interface than the last begins a new one.
unfoldable pub enter : Bytes → Dump → Dump
enter name d = if text_eq d.current_name name then d else record {
  interfaces = with_current d.current d.interfaces;
  current_name = name;
  current = some (new_interface name);
}

abbrev pub on_current : (Interface → Interface) → Option Interface → Dump → Result WgError Dump
on_current f none d = err no_interface
on_current f (some i) d = ok (record d { current = some (f i) })

-- A column that says that there is nothing.
abbrev pub unless_text : Bytes → Bytes → Bytes
unless_text nothing text = if text_eq text nothing then [] else text

module _ (parse_int : Bytes → Option ℤ) where
  abbrev pub or_int : ℤ → Option ℤ → ℤ
  or_int before none = before
  or_int before (some v) = v

  abbrev pub number : Bytes → ℤ
  number text = or_int (pos 0) (parse_int text)

  abbrev pub set_interface : Bytes → Bytes → Bytes → Interface → Interface
  set_interface key port mark i = record i {
    public_key = key;
    listen_port = or_int i.listen_port (parse_int port);
    fwmark = if text_eq mark (codes "off") then i.fwmark else mark;
  }

  abbrev pub add_peer : Peer → Interface → Interface
  add_peer p i = record i { peers = i.peers ++ (p ∷ []) }

  unfoldable pub interface_row : Bytes → Bytes → Bytes → Dump → Result WgError Dump
  interface_row key port mark d =
      if is_public_key key
      then on_current (set_interface key port mark) d.current d
      else err interface_key

  unfoldable pub peer_row : Peer → Dump → Result WgError Dump
  peer_row p d =
      if is_public_key p.public_key then on_current (add_peer p) d.current d else err peer_key

  -- Five columns are an interface, nine are a peer; the secret ones are bound to no name.
  unfoldable pub read_fields : List Bytes → Dump → Result WgError Dump
  read_fields (name ∷ _ ∷ key ∷ port ∷ mark ∷ []) d = interface_row key port mark (enter name d)
  read_fields (name ∷ key ∷ _ ∷ endpoint ∷ ips ∷ shake ∷ rx ∷ tx ∷ alive ∷ []) d =
      peer_row
        (record {
          public_key = key;
          endpoint = unless_text (codes "(none)") endpoint;
          allowed_ips = unless_text (codes "(none)") ips;
          latest_handshake = number shake;
          rx_bytes = number rx;
          tx_bytes = number tx;
          persistent_ka = if text_eq alive (codes "off") then pos 0 else number alive;
        })
        (enter name d)
  read_fields fields d = err (columns (length fields))

  unfoldable pub read_row : Bytes → Dump → Result WgError Dump
  read_row [] d = ok d
  read_row (c ∷ cs) d = read_fields (split_tabs (c ∷ cs)) d

  unfoldable pub read_rows : List Bytes → Dump → Result WgError Dump
  read_rows [] d = ok d
  read_rows (l ∷ ls) d = read_row l d >>= read_rows ls

  abbrev pub finished : Option Bytes → Dump → Result WgError (List Interface)
  finished none d = ok (with_current d.current d.interfaces)
  finished (some e) d = err (not_scanned e)

  unfoldable pub parse_wg_dump : Scan → Bytes → Result WgError (List Interface)
  parse_wg_dump scan stdout = let (lines, e) = scan stdout in read_rows lines no_dump >>= finished e

  abbrev dumped : Scan → Bytes × Option DispatchError → Result WgError (List Interface)
  dumped scan (stdout, some e) = err (not_run e)
  dumped scan (stdout, none) = parse_wg_dump scan stdout

  unfoldable pub wireguard_show : (Bytes → Bytes) → Scan → Child → Result WgError (List Interface)
  wireguard_show sha256_hex scan child = dumped scan (run sha256_hex child)
