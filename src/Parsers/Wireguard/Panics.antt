-- ===== src/Parsers/Wireguard/Panics.antt =====
-- When daemon/internal/helper/ops/wireguard.go writes through a nil `current`.
use host_health_mcp.Base.{
  ◌≡◌, ◌≢◌, refl, ap, ◌∙◌, ℕ, Bytes, Bool, true, false, Option, none, some, List, [], ◌∷◌,
  if◌then◌else◌, text_eq,
}
use host_health_mcp.Base.Result.{Result, ok, err, ◌>>=◌}
use host_health_mcp.Helper.Deadline.{ℤ}
use host_health_mcp.Parsers.Scan.{Scan}
use host_health_mcp.Parsers.Wireguard.{
  Peer, Interface, WgError, not_run, interface_key, peer_key, columns, not_scanned, no_interface,
  Dump, is_public_key, split_tabs, enter, on_current, interface_row, peer_row, read_fields,
  read_row, read_rows, finished, parse_wg_dump, no_dump,
}

-- An empty first column and else the shape of a row.
abbrev pub is_nameless : List Bytes → Bool
is_nameless ([] ∷ _ ∷ key ∷ port ∷ mark ∷ []) = is_public_key key
is_nameless ([] ∷ key ∷ _ ∷ endpoint ∷ ips ∷ shake ∷ rx ∷ tx ∷ alive ∷ []) = is_public_key key
is_nameless _ = false

-- The first line that is not empty is such a row.
abbrev pub begins_nameless : List Bytes → Bool
begins_nameless [] = false
begins_nameless ([] ∷ ls) = begins_nameless ls
begins_nameless ((c ∷ cs) ∷ ls) = is_nameless (split_tabs (c ∷ cs))

abbrev pub panics : {A : Type 0} → Result WgError A → Bool
panics (err no_interface) = true
panics _ = false

abbrev HasCurrent : Dump → Type 0
HasCurrent d = d.current ≢ none

-- Rows that succeed leave an interface, and none panics that finds one.
abbrev Goes : Result WgError Dump → Type 0
Goes (ok d) = HasCurrent d
Goes (err no_interface) = ⊥
Goes (err _) = Unit {0}

bind-bind :
    (m : Result WgError Dump) (f : Dump → Result WgError Dump)
    (g : Dump → Result WgError (List Interface))
    → ((m >>= f) >>= g) ≡ (m >>= (λ d. f d >>= g))
bind-bind (ok d) f g = refl
bind-bind (err e) f g = refl

module _ (parse_int : Bytes → Option ℤ) where
  on_current-Goes :
      (f : Interface → Interface) (o : Option Interface) (d : Dump)
      → o ≢ none
      → Goes (on_current f o d)
  on_current-Goes f none d h = absurd (h refl)
  on_current-Goes f (some i) d h = λ e. cc

  either-HasCurrent :
      (b : Bool) (x y : Dump) → HasCurrent x → HasCurrent y → HasCurrent (if b then x else y)
  either-HasCurrent true x y h k = h
  either-HasCurrent false x y h k = k

  either-Goes :
      (b : Bool) (x : Result WgError Dump) (e : WgError)
      → Goes x
      → panics {A = Dump} (err e) ≡ false
      → Goes (if b then x else err e)
  either-Goes true x e h k = h
  either-Goes false x (not_run _) h k = tt
  either-Goes false x interface_key h k = tt
  either-Goes false x peer_key h k = tt
  either-Goes false x (columns _) h k = tt
  either-Goes false x (not_scanned _) h k = tt
  either-Goes false x no_interface h k = absurd (cc)

  enter-HasCurrent : (name : Bytes) (d : Dump) → HasCurrent d → HasCurrent (enter name d)
  unfolding enter
  enter-HasCurrent name d h = either-HasCurrent (text_eq d.current_name name) d _ h (λ e. cc)

  interface_row-Goes :
      (key port mark : Bytes) (d : Dump)
      → HasCurrent d
      → Goes (interface_row parse_int key port mark d)
  unfolding interface_row
  interface_row-Goes key port mark d h =
      either-Goes (is_public_key key) _ interface_key (on_current-Goes _ d.current d h) refl

  peer_row-Goes : (p : Peer) (d : Dump) → HasCurrent d → Goes (peer_row parse_int p d)
  unfolding peer_row
  peer_row-Goes p d h =
      either-Goes (is_public_key p.public_key) _ peer_key (on_current-Goes _ d.current d h) refl

  read_fields-Goes : (fs : List Bytes) (d : Dump) → HasCurrent d → Goes (read_fields parse_int fs d)
  unfolding read_fields
  read_fields-Goes (name ∷ _ ∷ key ∷ port ∷ mark ∷ []) d h =
      interface_row-Goes key port mark (enter name d) (enter-HasCurrent name d h)
  read_fields-Goes (name ∷ key ∷ _ ∷ endpoint ∷ ips ∷ shake ∷ rx ∷ tx ∷ alive ∷ []) d h =
      peer_row-Goes _ (enter name d) (enter-HasCurrent name d h)
  read_fields-Goes _ d h = tt

  read_row-Goes : (l : Bytes) (d : Dump) → HasCurrent d → Goes (read_row parse_int l d)
  unfolding read_row
  read_row-Goes [] d h = h
  read_row-Goes (c ∷ cs) d h = read_fields-Goes (split_tabs (c ∷ cs)) d h

  Goes-bind :
      (r : Result WgError Dump) (f : Dump → Result WgError Dump)
      → Goes r
      → ((d : Dump) → HasCurrent d → Goes (f d))
      → Goes (r >>= f)
  Goes-bind (ok d) f h k = k d h
  Goes-bind (err no_interface) f h k = absurd h
  Goes-bind (err (not_run _)) f h k = tt
  Goes-bind (err interface_key) f h k = tt
  Goes-bind (err peer_key) f h k = tt
  Goes-bind (err (columns _)) f h k = tt
  Goes-bind (err (not_scanned _)) f h k = tt

  read_rows-Goes : (ls : List Bytes) (d : Dump) → HasCurrent d → Goes (read_rows parse_int ls d)
  unfolding read_rows
  read_rows-Goes [] d h = h
  read_rows-Goes (l ∷ ls) d h =
      Goes-bind (read_row parse_int l d) (read_rows parse_int ls) (read_row-Goes l d h)
        (read_rows-Goes ls)

  finished-panics : (e : Option Bytes) (d : Dump) → panics (finished parse_int e d) ≡ false
  finished-panics none d = refl
  finished-panics (some e) d = refl

  Goes-panics :
      (r : Result WgError Dump) (f : Dump → Result WgError (List Interface))
      → Goes r
      → ((d : Dump) → HasCurrent d → panics (f d) ≡ false)
      → panics (r >>= f) ≡ false
  Goes-panics (ok d) f h k = k d h
  Goes-panics (err no_interface) f h k = absurd h
  Goes-panics (err (not_run _)) f h k = refl
  Goes-panics (err interface_key) f h k = refl
  Goes-panics (err peer_key) f h k = refl
  Goes-panics (err (columns _)) f h k = refl
  Goes-panics (err (not_scanned _)) f h k = refl

  keyless :
      (b : Bool) (e : WgError) (f : Dump → Result WgError (List Interface))
      → panics {A = Dump} (err e) ≡ false
      → panics ((if b then err no_interface else err e) >>= f) ≡ b
  keyless true e f h = refl
  keyless false (not_run _) f h = refl
  keyless false interface_key f h = refl
  keyless false peer_key f h = refl
  keyless false (columns _) f h = refl
  keyless false (not_scanned _) f h = refl
  keyless false no_interface f h = absurd (cc)

  named-HasCurrent : (c : ℕ) (cs : Bytes) → HasCurrent (enter (c ∷ cs) no_dump)
  unfolding enter text_eq
  named-HasCurrent c cs e = cc

  first_fields :
      (fs : List Bytes) (f : Dump → Result WgError (List Interface))
      → ((d : Dump) → HasCurrent d → panics (f d) ≡ false)
      → panics (read_fields parse_int fs no_dump >>= f) ≡ is_nameless fs
  unfolding read_fields enter text_eq interface_row peer_row
  first_fields ([] ∷ _ ∷ key ∷ port ∷ mark ∷ []) f k =
      keyless (is_public_key key) interface_key f refl
  first_fields ((c ∷ cs) ∷ _ ∷ key ∷ port ∷ mark ∷ []) f k =
      Goes-panics _ f
        (interface_row-Goes key port mark (enter (c ∷ cs) no_dump) (named-HasCurrent c cs)) k
  first_fields ([] ∷ key ∷ _ ∷ endpoint ∷ ips ∷ shake ∷ rx ∷ tx ∷ alive ∷ []) f k =
      keyless (is_public_key key) peer_key f refl
  first_fields ((c ∷ cs) ∷ key ∷ _ ∷ endpoint ∷ ips ∷ shake ∷ rx ∷ tx ∷ alive ∷ []) f k =
      Goes-panics _ f (peer_row-Goes _ (enter (c ∷ cs) no_dump) (named-HasCurrent c cs)) k
  first_fields _ f k = refl

  first_rows :
      (e : Option Bytes) (ls : List Bytes)
      → panics (read_rows parse_int ls no_dump >>= finished parse_int e) ≡ begins_nameless ls
  unfolding read_rows read_row
  first_rows e [] = finished-panics e no_dump
  first_rows e ([] ∷ ls) = first_rows e ls
  first_rows e ((c ∷ cs) ∷ ls) =
      ap panics (
        bind-bind (read_fields parse_int (split_tabs (c ∷ cs)) no_dump) (read_rows parse_int ls)
          (finished parse_int e))
      ∙ first_fields (split_tabs (c ∷ cs)) (λ d. read_rows parse_int ls d >>= finished parse_int e)
          (λ d h.
            Goes-panics (read_rows parse_int ls d) (finished parse_int e) (read_rows-Goes ls d h)
              (λ d' h'. finished-panics e d'))

  -- The parser writes through a nil pointer exactly if the first line that is not empty has an empty
  -- first column, five or nine columns in all and a public key as it should be; no later row can make
  -- it do so.
  pub parse_wg_dump-panics :
      (scan : Scan) (stdout : Bytes)
      → panics (parse_wg_dump parse_int scan stdout) ≡ begins_nameless (scan stdout).0
  unfolding parse_wg_dump
  parse_wg_dump-panics scan stdout = first_rows (scan stdout).1 (scan stdout).0
