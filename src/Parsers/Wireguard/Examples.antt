-- ===== src/Parsers/Wireguard/Examples.antt =====
-- A dump of one interface with a peer, and one that begins without a name.
use host_health_mcp.Base.{
  ◌≡◌, refl, codes, Bytes, Option, none, some, List, [], ◌∷◌, ◌++◌, true, text_eq, ◌==◌,
  if◌then◌else◌,
}
use host_health_mcp.Base.Result.{ok}
use host_health_mcp.Helper.Deadline.{ℤ, pos}
use host_health_mcp.Parsers.Scan.{Scan, split_last, all_bytes, is_alphanumeric, is_digit}
use host_health_mcp.Parsers.Wireguard.{
  is_public_key, split_tabs, parse_wg_dump, read_rows, read_row, read_fields, enter, interface_row,
}
use host_health_mcp.Parsers.Wireguard.Secrets.{
  private_key, preshared_key, no_rows, row, parse_wg_dump-SameButKeys,
}
use host_health_mcp.Parsers.Wireguard.Panics.{panics, parse_wg_dump-panics}

abbrev tab : Bytes
tab = b'\t' ∷ []

abbrev key : Bytes
key = codes "AAAAAAAAAAAAAAAAAAAAAAAAAAAAAAAAAAAAAAAAAAA="

abbrev header : Bytes → Bytes → Bytes
header name secret =
    name ++ (tab ++ (secret ++ (tab ++ (key ++ (tab ++ (codes "51820" ++ (tab ++ codes "off")))))))

abbrev peer : Bytes → Bytes
peer secret =
    codes "wg0"
    ++ (tab
        ++ (key
            ++ (tab
                ++ (secret
                    ++ (tab
                        ++ (codes "(none)"
                            ++ (tab
                                ++ (codes "10.0.0.2/32"
                                    ++ (tab
                                        ++ (codes "0"
                                            ++ (tab
                                                ++ (codes "1"
                                                    ++ (tab
                                                        ++ (codes "2"
                                                            ++ (tab ++ codes "off")))))))))))))))

-- Each line of these outputs ends in a line feed.
unfoldable lines_of : Bytes → List Bytes
lines_of [] = [] ∷ []
lines_of (c ∷ cs) = elim (lines_of cs) [
  | [] ↦ []
  | l ∷ ls ↦ if c == b'\n' then [] ∷ l ∷ ls else (c ∷ l) ∷ ls
]

abbrev scan : Scan
scan stdout = (lines_of stdout, none)

abbrev output : Bytes → Bytes → Bytes
output secret shared = header (codes "wg0") secret ++ (b'\n' ∷ peer shared)

abbrev as_number : Bytes → Option ℤ
as_number [] = none
as_number (c ∷ cs) = some (pos 7)

parse_wg_dump-SameButKeys_example :
    parse_wg_dump as_number scan (output (codes "one") (codes "p"))
    ≡ parse_wg_dump as_number scan (output (codes "two") (codes "q"))
unfolding lines_of split_tabs
parse_wg_dump-SameButKeys_example =
    parse_wg_dump-SameButKeys as_number scan (output (codes "one") (codes "p"))
      (output (codes "two") (codes "q"))
      (row _ _ _ _ (private_key _ _ _ _ _ _)
        (row _ _ _ _ (preshared_key _ _ _ _ _ _ _ _ _ _) no_rows))
      refl

shows :
    parse_wg_dump as_number scan (header (codes "wg0") (codes "one"))
    ≡ ok (
        record {
          name = codes "wg0";
          public_key = key;
          listen_port = pos 7;
          fwmark = [];
          peers = [];
        }
        ∷ [])
unfolding lines_of split_tabs parse_wg_dump read_rows read_row read_fields enter interface_row
    is_public_key split_last all_bytes is_alphanumeric is_digit text_eq
shows = refl

-- A row with an empty name finds no interface to write to.
parse_wg_dump-panics_example :
    panics (parse_wg_dump as_number scan (header [] (codes "one"))) ≡ true
unfolding lines_of split_tabs is_public_key split_last all_bytes is_alphanumeric is_digit
parse_wg_dump-panics_example = parse_wg_dump-panics as_number scan (header [] (codes "one"))
