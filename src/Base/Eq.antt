-- ===== src/Base/Eq.antt =====
-- Keys of maps: a type with a Boolean equality, as an instance argument.
use text.Mathlib.Text.{◌==◌ as str_eq}
use text.Mathlib.TextEquality.{eq_iff}
use host_health_mcp.Base.{
  ℕ, String, Bytes, Bool, true, ◌≡◌, ◌↔◌, ◌==◌, ==_iff, text_eq, text_eq_iff,
}

pub record Eq {ℓ} (A : Type ℓ) : Type ℓ where
  pub beq : A → A → Bool
  pub beq_iff : (a b : A) → (beq a b ≡ true) ↔ (a ≡ b)

instance abbrev pub nat_eq : Eq ℕ
nat_eq = record { beq = ◌==◌; beq_iff = ==_iff }

instance abbrev pub string_eq : Eq String
string_eq = record { beq = str_eq; beq_iff = eq_iff }

instance abbrev pub bytes_eq : Eq Bytes
bytes_eq = record { beq = text_eq; beq_iff = text_eq_iff }
