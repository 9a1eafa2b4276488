-- ===== src/Capabilities/Plan/Sets.antt =====
-- `set` of daemon/internal/shared/capsplan/capsplan.go: its order lists what was seen, once each.
use text.Mathlib.Text.{◌==◌ as str_eq}
use text.Mathlib.TextEquality.{eq_iff}
use host_health_mcp.Base.{
  String, true, false, ◌||◌, List, [], ◌∷◌, ◌++◌, ◌≡◌, refl, arith, if◌then◌else◌,
}
use host_health_mcp.Capabilities.Plan.{has, CapSet, new_set, add}

has-append : (xs ys : List String) (w : String) → has (xs ++ ys) w ≡ (has xs w || has ys w)
unfolding has
has-append [] ys w = refl
has-append (x ∷ xs) ys w = ground (arith, has-append xs ys w)

-- No name twice.
abbrev pub Distinct : List String → Type 0
Distinct [] = Unit {0}
Distinct (x ∷ xs) = (has xs x ≡ false) × Distinct xs

Distinct-concat :
    (xs : List String) (v : String) → has xs v ≡ false → Distinct xs → Distinct (xs ++ (v ∷ []))
unfolding has
Distinct-concat [] v h d = (refl, tt)
Distinct-concat (x ∷ xs) v h d =
    ground (arith, has-append xs (v ∷ []) x, eq_iff x v, eq_iff v x, Distinct-concat xs v, d.0, d.1)

pub record IsListed (s : CapSet) : Type 0 where
  pub listed : (w : String) → has s.order w ≡ s.seen w
  pub distinct : Distinct s.order

pub IsListed-new_set : IsListed new_set
unfolding new_set has
IsListed-new_set = record { listed = λ w. refl; distinct = tt }

pub seen-add :
    (v w : String) (s : CapSet) → (add v s).seen w ≡ (if str_eq v w then true else s.seen w)
unfolding add
seen-add v w s = ground (arith, eq_iff v w)

pub IsListed-add : (v : String) (s : CapSet) → IsListed s → IsListed (add v s)
unfolding add has
IsListed-add v s i = record {
  listed = λ w. ground (arith, has-append s.order (v ∷ []) w, i.listed w);
  distinct = ground (arith, i.listed v, Distinct-concat s.order v, i.distinct);
}
