-- ===== src/Parsers/Scan.antt =====
-- What the parsers of daemon/internal/helper/ops share: the lines of an output and tests of texts.
use host_health_mcp.Base.{
  ℕ, Bytes, Bool, true, false, ◌&&◌, ◌||◌, Option, none, some, List, [], ◌∷◌, ◌==◌, leb,
}

abbrev pub Scan : Type 0
Scan = Bytes → List Bytes × Option Bytes

-- `strings.HasPrefix(s, p)`, with the prefix first.
unfoldable pub has_prefix : Bytes → Bytes → Bool
has_prefix [] s = true
has_prefix (p ∷ ps) [] = false
has_prefix (p ∷ ps) (c ∷ cs) = p == c && has_prefix ps cs

-- `strings.Contains(s, p)`, with the part first.
unfoldable pub contains : Bytes → Bytes → Bool
contains p [] = has_prefix p []
contains p (c ∷ cs) = has_prefix p (c ∷ cs) || contains p cs

unfoldable pub is_digit : ℕ → Bool
is_digit c = leb b'0' c && leb c b'9'

unfoldable pub is_alphanumeric : ℕ → Bool
is_alphanumeric c = is_digit c || (leb b'A' c && leb c b'Z') || (leb b'a' c && leb c b'z')

unfoldable pub all_bytes : (ℕ → Bool) → Bytes → Bool
all_bytes p [] = true
all_bytes p (c ∷ cs) = p c && all_bytes p cs

-- All bytes but the last, and the last.
unfoldable pub split_last : Bytes → Option (Bytes × ℕ)
split_last [] = none
split_last (c ∷ cs) = elim (split_last cs) [
  | none ↦ some ([], c)
  | some (front, last) ↦ some (c ∷ front, last)
]
