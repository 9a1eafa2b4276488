-- ===== src/Cache/Counts.antt =====
-- Removing one occurrence from a list of keys.
use host_health_mcp.Base.{
  ℕ, suc, ◌+◌, ◌≤◌, ◌≡◌, refl, Bytes, List, [], ◌∷◌, ◌++◌, arith, length, text_eq, if◌then◌else◌,
}

abbrev pub one : Bytes → Bytes → ℕ
one j k = if text_eq j k then 1 else 0

abbrev pub count : Bytes → List Bytes → ℕ
count k [] = 0
count k (j ∷ js) = one j k + count k js

pub count-middle :
    (k j : Bytes) (before after : List Bytes)
    → count k (before ++ (j ∷ after)) ≡ one j k + count k (before ++ after)
count-middle k j [] after = refl
count-middle k j (i ∷ before) after = omega (arith, count-middle k j before after)

pub length-middle {ℓ} :
    {A : Type ℓ} (j : A) (before after : List A)
    → length (before ++ (j ∷ after)) ≡ suc (length (before ++ after))
length-middle j [] after = refl
length-middle j (i ∷ before) after = omega (arith, length-middle j before after)

pub count-le-length : (k : Bytes) (js : List Bytes) → count k js ≤ length js
count-le-length k [] = omega arith
count-le-length k (j ∷ js) = ground (arith, count-le-length k js)
