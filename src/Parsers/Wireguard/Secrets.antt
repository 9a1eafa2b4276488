-- ===== src/Parsers/Wireguard/Secrets.antt =====
-- That a reply of daemon/internal/helper/ops/wireguard.go does not tell the private and preshared keys,
-- and which keys it does tell.
use host_health_mcp.Base.{
  ◌≡◌, ◌≢◌, refl, sym, ◌∙◌, ℕ, Bytes, true, false, Option, List, [], ◌∷◌, ◌⊎◌, inl, inr, Bool-cases,
  if◌then◌else◌, ◌==◌,
}
use host_health_mcp.Base.Result.{Result, ok, err, ◌>>=◌}
use host_health_mcp.Helper.Deadline.{ℤ}
use host_health_mcp.Parsers.Scan.{Scan}
use host_health_mcp.Parsers.Wireguard.{
  WgError, Dump, split_tabs, onto_first, read_fields, read_row, read_rows, parse_wg_dump, no_dump,
}

-- The columns of two rows that differ at most in the secret one.
pub data SameColumns : List Bytes → List Bytes → Type 0 where
  same_columns : (fs : List Bytes) → SameColumns fs fs
  private_key :
      (name secret secret' key port mark : Bytes)
      → SameColumns
          (name ∷ secret ∷ key ∷ port ∷ mark ∷ [])
          (name ∷ secret' ∷ key ∷ port ∷ mark ∷ [])
  preshared_key :
      (name key secret secret' endpoint ips shake rx tx alive : Bytes)
      → SameColumns
          (name ∷ key ∷ secret ∷ endpoint ∷ ips ∷ shake ∷ rx ∷ tx ∷ alive ∷ [])
          (name ∷ key ∷ secret' ∷ endpoint ∷ ips ∷ shake ∷ rx ∷ tx ∷ alive ∷ [])

-- Two dumps whose rows differ at most in the secret columns.
pub data SameButKeys : List Bytes → List Bytes → Type 0 where
  no_rows : SameButKeys [] []
  row :
      (l l' : Bytes) (ls ls' : List Bytes)
      → SameColumns (split_tabs l) (split_tabs l')
      → SameButKeys ls ls'
      → SameButKeys (l ∷ ls) (l' ∷ ls')

module _ (parse_int : Bytes → Option ℤ) where
  -- A row by its columns: an empty one has a single empty column.
  abbrev row_of : List Bytes → Dump → Result WgError Dump
  row_of ([] ∷ []) d = ok d
  row_of fs d = read_fields parse_int fs d

  row_of-SameColumns :
      {fs fs' : List Bytes} → SameColumns fs fs' → (d : Dump) → row_of fs d ≡ row_of fs' d
  unfolding read_fields
  row_of-SameColumns (same_columns fs) d = refl
  row_of-SameColumns (private_key [] secret secret' key port mark) d = refl
  row_of-SameColumns (private_key (c ∷ cs) secret secret' key port mark) d = refl
  row_of-SameColumns (preshared_key [] key secret secret' endpoint ips shake rx tx alive) d = refl
  row_of-SameColumns (preshared_key (c ∷ cs) key secret secret' endpoint ips shake rx tx alive) d =
      refl

  after_tab :
      (fs : List Bytes) (d : Dump)
      → fs ≢ []
      → read_fields parse_int ([] ∷ fs) d ≡ row_of ([] ∷ fs) d
  after_tab [] d h = absurd (h refl)
  after_tab (f ∷ fs) d h = refl

  in_column :
      (c : ℕ) (fs : List Bytes) (d : Dump)
      → read_fields parse_int (onto_first c fs) d ≡ row_of (onto_first c fs) d
  in_column c [] d = refl
  in_column c (f ∷ fs) d = refl

  split_tabs-ne-nil : (l : Bytes) → split_tabs l ≢ []
  unfolding split_tabs
  split_tabs-ne-nil [] e = cc
  split_tabs-ne-nil (c ∷ cs) e = by_column (split_tabs cs) (Bool-cases (c == b'\t')) e
    where
      by_column :
          (fs : List Bytes)
          → ((c == b'\t') ≡ true) ⊎ ((c == b'\t') ≡ false)
          → (if c == b'\t' then [] ∷ fs else onto_first c fs) ≡ []
          → ⊥
      by_column fs (inl tab) e = cc
      by_column [] (inr no_tab) e = cc
      by_column (f ∷ fs) (inr no_tab) e = cc

  read_row-row_of : (l : Bytes) (d : Dump) → read_row parse_int l d ≡ row_of (split_tabs l) d
  unfolding read_row split_tabs
  read_row-row_of [] d = refl
  read_row-row_of (c ∷ cs) d = elim (Bool-cases (c == b'\t')) [
    | inl tab ↦ rw tab (after_tab (split_tabs cs) d (split_tabs-ne-nil cs))
    | inr other ↦ rw other (in_column c (split_tabs cs) d)
  ]

  onwards :
      {f g : Dump → Result WgError Dump}
      → ((d : Dump) → f d ≡ g d)
      → (r : Result WgError Dump) → (r >>= f) ≡ (r >>= g)
  onwards h (ok d) = h d
  onwards h (err e) = refl

  read_rows-SameButKeys :
      {ls ls' : List Bytes}
      → SameButKeys ls ls'
      → (d : Dump) → read_rows parse_int ls d ≡ read_rows parse_int ls' d
  unfolding read_rows
  read_rows-SameButKeys no_rows d = refl
  read_rows-SameButKeys (row l l' ls ls' same rest) d =
      let here : read_row parse_int l d ≡ read_row parse_int l' d =
        read_row-row_of l d ∙ row_of-SameColumns same d ∙ sym (read_row-row_of l' d) in
      rw here (onwards (read_rows-SameButKeys rest) (read_row parse_int l' d))

  -- Outputs whose rows differ at most in the column of a private or of a preshared key, and that
  -- were read as far and with the same error, give the same reply or fail alike.
  pub parse_wg_dump-SameButKeys :
      (scan : Scan) (stdout stdout' : Bytes)
      → SameButKeys (scan stdout).0 (scan stdout').0
      → (scan stdout).1 ≡ (scan stdout').1
      → parse_wg_dump parse_int scan stdout ≡ parse_wg_dump parse_int scan stdout'
  unfolding parse_wg_dump
  parse_wg_dump-SameButKeys scan stdout stdout' same same_end =
      rw (read_rows-SameButKeys same no_dump, same_end) refl
