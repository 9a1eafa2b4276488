-- ===== src/Capabilities/Effective.antt =====
-- daemon/internal/helper/caps/caps.go: the effective mask of the helper and the test on it.
-- Reading /proc/self/status and parsing its hexadecimal CapEff line are outside the model: a `Set`
-- is what that gave, with `read` false where it gave nothing.
use text.Mathlib.Text.{◌==◌ as str_eq}
use host_health_mcp.Base.{
  ℕ, ◌/◌, ◌%◌, ◌^◌, String, Bool, true, false, not, Option, none, some, List, [], ◌∷◌, ◌≡◌, arith,
  ◌==◌, if◌then◌else◌,
}

pub record Set : Type 0 where
  pub mask : ℕ
  pub read : Bool

abbrev bits : List (String × ℕ)
bits =
    ("CAP_CHOWN", 0)
    ∷ ("CAP_DAC_READ_SEARCH", 2)
    ∷ ("CAP_NET_ADMIN", 12)
    ∷ ("CAP_SYS_RAWIO", 17)
    ∷ ("CAP_SYS_ADMIN", 21)
    ∷ ("CAP_AUDIT_CONTROL", 30)
    ∷ ("CAP_AUDIT_READ", 37)
    ∷ []

find_bit : String → List (String × ℕ) → Option ℕ
find_bit name [] = none
find_bit name ((n, b) ∷ rest) = if str_eq n name then some b else find_bit name rest

unfoldable pub bit_of : String → Option ℕ
unfolding find_bit
bit_of name = find_bit name bits

-- `s.mask&(1<<b) != 0`
abbrev pub bit_set : ℕ → ℕ → Bool
bit_set mask b = mask / 2 ^ b % 2 == 1

unfoldable pub has : String → Set → Bool
has name s =
    if not s.read then true else elim (bit_of name) [ none ↦ true | some b ↦ bit_set s.mask b ]

unfoldable pub known : String → Bool
known name = elim (bit_of name) [ none ↦ false | some b ↦ true ]

-- A capability is reported missing only from a mask that was read, for a name in the table whose
-- bit is clear: ignorance never warns.
pub has-false :
    (name : String) (s : Set)
    → has name s ≡ false
    → (s.read ≡ true)
      × (known name ≡ true)
      × ((b : ℕ) → bit_of name ≡ some b → bit_set s.mask b ≡ false)
unfolding has known
has-false name s h = (ground arith, ground arith, λ b e. ground arith)
