-- ===== src/Parsers/Int64.antt =====
-- The int64 arithmetic of daemon/internal/helper/ops/nginx_apache.go, on integers of two constructors.
use host_health_mcp.Base.{
  ℕ, suc, ◌+◌, ◌-◌, ◌*◌, ◌%◌, ◌^◌, ◌<◌, ◌≤◌, ◌≡◌, Bool, true, false, arith, ltb, leb, if◌then◌else◌,
}
use host_health_mcp.Helper.Deadline.{ℤ, pos, negsuc}

abbrev pub pos_part : ℤ → ℕ
pos_part (pos n) = n
pos_part (negsuc n) = 0

abbrev pub neg_part : ℤ → ℕ
neg_part (pos n) = 0
neg_part (negsuc n) = suc n

-- a - b, as an integer.
abbrev pub sub_ℕ : ℕ → ℕ → ℤ
sub_ℕ a b = if leb b a then pos (a - b) else negsuc (b - a - 1)

infixl 65 ◌+ℤ◌ ◌-ℤ◌
unfoldable pub ◌+ℤ◌ : ℤ → ℤ → ℤ
a +ℤ b = sub_ℕ (pos_part a + pos_part b) (neg_part a + neg_part b)

unfoldable pub ◌-ℤ◌ : ℤ → ℤ → ℤ
a -ℤ b = sub_ℕ (pos_part a + neg_part b) (neg_part a + pos_part b)

infix 50 ◌≤ℤ◌
abbrev pub ◌≤ℤ◌ : ℤ → ℤ → Type 0
a ≤ℤ b = pos_part a + neg_part b ≤ pos_part b + neg_part a

unfoldable pub ltb_ℤ : ℤ → ℤ → Bool
ltb_ℤ a b = ltb (pos_part a + neg_part b) (pos_part b + neg_part a)

-- What an int64 holds of an integer: its residue of 2^64, read as a two's complement.
unfoldable pub wrap64 : ℤ → ℤ
wrap64 z =
    let bits = (pos_part z + (2 ^ 64 - neg_part z % 2 ^ 64)) % 2 ^ 64 in
    if ltb bits (2 ^ 63) then pos bits else negsuc (2 ^ 64 - 1 - bits)

pub wrap64_small : (n : ℕ) → n < 2 ^ 63 → wrap64 (pos n) ≡ pos n
unfolding wrap64
wrap64_small n h = ground arith

-- The product with a number.
unfoldable pub times : ℤ → ℕ → ℤ
times z k = sub_ℕ (pos_part z * k) (neg_part z * k)

-- `-d` of a Duration.
unfoldable pub neg64 : ℤ → ℤ
neg64 z = wrap64 (pos 0 -ℤ z)

pub pos-sub-pos : (a b : ℕ) → a ≤ b → pos b -ℤ pos a ≡ pos (b - a)
unfolding ◌-ℤ◌
pos-sub-pos a b h = ground arith

pub ltb_ℤ-pos : (a b : ℕ) → ltb_ℤ (pos a) (pos b) ≡ ltb a b
unfolding ltb_ℤ
ltb_ℤ-pos a b = ground arith

pub ltb-true : (a b : ℕ) → a < b → ltb a b ≡ true
ltb-true a b h = ground arith

pub ltb-false : (a b : ℕ) → b ≤ a → ltb a b ≡ false
ltb-false a b h = ground arith
