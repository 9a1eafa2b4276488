-- ===== src/Helper/Server/Warnings.antt =====
-- The missing-capability warning of daemon/internal/helper/server/server.go.
use text.Mathlib.Text.{◌==◌ as str_eq}
use text.Mathlib.TextEquality.{eq_iff}
use host_health_mcp.Base.{
  ℕ, ◌+◌, ◌≤◌, ◌≡◌, refl, String, Bytes, true, false, some, List, [], ◌∷◌, arith, if◌then◌else◌,
  Bool-cases, Option-cases, inl, inr,
}
use host_health_mcp.Base.Result.{Result}
use host_health_mcp.Capabilities.Effective
use host_health_mcp.Helper.Ops.{is_known_op, required_cap}
use host_health_mcp.Helper.Registry
use host_health_mcp.Helper.Server.{
  Request, Config, State, started, warn_missing_cap_once, check_caps, dispatch,
}

abbrev pub count : String → List String → ℕ
count op [] = 0
count op (o ∷ os) = (if str_eq o op then 1 else 0) + count op os

-- A line for each warned op, and only for ops that need a capability the helper does not hold.
pub record IsValid {W : Type 0} (caps : Effective.Set) (s : State W) : Type 0 where
  pub once : (op : String) → count op s.logged ≡ (if s.warned_caps op then 1 else 0)
  pub justified :
      (op : String)
      → s.warned_caps op ≡ true
      → (want : String) × (required_cap op ≡ some want) × (Effective.has want caps ≡ false)

module _ {W : Type 0} (caps : Effective.Set) where
  IsValid-started : (w : W) → IsValid caps (started w)
  IsValid-started w = record { once = λ op. refl; justified = λ op h. cc }

  warn-IsValid :
      (op want : String) (s : State W)
      → required_cap op ≡ some want
      → Effective.has want caps ≡ false
      → IsValid caps s
      → IsValid caps (warn_missing_cap_once op s)
  unfolding warn_missing_cap_once
  warn-IsValid op want s r h v = elim (Bool-cases (s.warned_caps op)) [
    | inl old ↦ rw old v
    | inr new ↦ rw new (record {
      once = λ o. ground (arith, v.once o, v.once op, eq_iff op o);
      justified = λ o w. elim (Bool-cases (str_eq op o)) [
        | inl same ↦ (want, rw (← ((eq_iff op o).0 same)) r, h)
        | inr differs ↦ v.justified o (ground arith)
      ];
    })
  ]

  check_caps-IsValid :
      (op : String) (s : State W) → IsValid caps s → IsValid caps (check_caps caps op s)
  unfolding check_caps
  check_caps-IsValid op s v = elim (Option-cases (required_cap op)) [
    | inl free ↦ rw (free, check_caps) v
    | inr (want, needs) ↦
        rw (needs, check_caps)
          (elim (Bool-cases (Effective.has want caps)) [
            | inl holds ↦ rw holds v
            | inr lacks ↦ rw lacks (warn-IsValid op want s needs lacks v)
          ])
  ]

module _ {W V : Type 0} (marshal : V → Result Bytes Bytes) (cfg : Config W V) where
  dispatch-IsValid :
      (req : Request) (s : State W)
      → IsValid cfg.caps s
      → IsValid cfg.caps (dispatch marshal cfg req s).0
  unfolding dispatch
  dispatch-IsValid req s v = elim (Bool-cases (is_known_op req.op)) [
    | inr unknown ↦ rw (unknown, dispatch) v
    | inl known ↦
        rw (known, dispatch)
          (elim (Option-cases (Registry.lookup req.op cfg.registry)) [
            | inl missing ↦ rw (missing, dispatch) v
            | inr (h, found) ↦
                let w = check_caps-IsValid cfg.caps req.op s v in
                rw (found, dispatch) (record { once = w.once; justified = w.justified })
          ])
  ]

  -- The requests of the process in the order in which they are dispatched, on any connections.
  unfoldable pub dispatch_all : List Request → State W → State W
  dispatch_all [] s = s
  dispatch_all (req ∷ reqs) s = dispatch_all reqs (dispatch marshal cfg req s).0

  all-IsValid :
      (reqs : List Request) (s : State W)
      → IsValid cfg.caps s
      → IsValid cfg.caps (dispatch_all reqs s)
  unfolding dispatch_all
  all-IsValid [] s v = v
  all-IsValid (req ∷ reqs) s v =
      all-IsValid reqs (dispatch marshal cfg req s).0 (dispatch-IsValid req s v)

  -- Over the life of the helper an op is warned about at most once, and only if the table names a
  -- capability for it that the helper's effective mask lacks.
  pub warned_once :
      (reqs : List Request) (w : W) (op : String)
      → (count op (dispatch_all reqs (started w)).logged ≤ 1)
        × (1 ≤ count op (dispatch_all reqs (started w)).logged
            → (want : String) × (required_cap op ≡ some want)
              × (Effective.has want cfg.caps ≡ false))
  warned_once reqs w op =
      let v = all-IsValid reqs (started w) (IsValid-started cfg.caps w) in
      (ground (arith, v.once op), λ h. v.justified op (ground (arith, v.once op)))
