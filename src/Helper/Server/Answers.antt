-- ===== src/Helper/Server/Answers.antt =====
-- The replies of `dispatch` in daemon/internal/helper/server/server.go.
use host_health_mcp.Base.{
  ℕ, ◌≤◌, ◌≡◌, ap, ◌∙◌, Bytes, codes, true, false, none, some, arith, Bool-cases, ◌⊎◌, inl, inr,
}
use host_health_mcp.Base.Result.{Result}
use host_health_mcp.Helper.Deadline.{
  Overrides, op_deadline, min_op_deadline, max_op_deadline, op_deadline_bounds,
}
use host_health_mcp.Helper.Ops.{bad_op, is_known_op}
use host_health_mcp.Helper.Registry
use host_health_mcp.Helper.Server.{
  Request, err_resp, Config, State, Handler, check_caps, warn_missing_cap_once, time_for,
  response_of, run_handler, dispatch,
}

module _ {W V : Type 0} (marshal : V → Result Bytes Bytes) (cfg : Config W V) (req : Request)
    (s : State W) where
  dispatch_unknown :
      is_known_op req.op ≡ false
      → dispatch marshal cfg req s ≡ (s, err_resp bad_op (codes "unknown op token"))
  unfolding dispatch
  dispatch_unknown u = rw (u, dispatch)

  dispatch_missing :
      is_known_op req.op ≡ true
      → Registry.lookup req.op cfg.registry ≡ none
      → dispatch marshal cfg req s ≡ (s, err_resp bad_op (codes "op not compiled into this helper"))
  unfolding dispatch
  dispatch_missing k m = rw (k, m, dispatch)

  dispatch_found :
      (h : Handler W V)
      → is_known_op req.op ≡ true
      → Registry.lookup req.op cfg.registry ≡ some h
      → dispatch marshal cfg req s ≡ run_handler marshal cfg req h (check_caps cfg.caps req.op s)
  unfolding dispatch
  dispatch_found h k m = rw (k, m, dispatch)

  world-check_caps : (check_caps cfg.caps req.op s).world ≡ s.world
  unfolding check_caps warn_missing_cap_once
  world-check_caps = ground arith

  refused :
      (is_known_op req.op ≡ false) ⊎ (Registry.lookup req.op cfg.registry ≡ none)
      → ((dispatch marshal cfg req s).0 ≡ s)
        × ((msg : Bytes) × ((dispatch marshal cfg req s).1 ≡ err_resp bad_op msg))
  refused o = elim (Bool-cases (is_known_op req.op)) [
    | inr unknown ↦
        let e = dispatch_unknown unknown in
        (ap (λ p. p.0) e, (codes "unknown op token", ap (λ p. p.1) e))
    | inl known ↦
        let missing : Registry.lookup req.op cfg.registry ≡ none = elim o [
          | inl unknown ↦ cc
          | inr m ↦ m
        ] in
        let e = dispatch_missing known missing in
        (ap (λ p. p.0) e, (codes "op not compiled into this helper", ap (λ p. p.1) e))
  ]

  ran :
      (h : Handler W V) (time : ℕ)
      → time_for marshal cfg req ≡ time
      → is_known_op req.op ≡ true
      → Registry.lookup req.op cfg.registry ≡ some h
      → ((dispatch marshal cfg req s).0.world ≡ (h s.world time req.param).0)
        × ((dispatch marshal cfg req s).1 ≡ response_of marshal (h s.world time req.param).1)
  unfolding run_handler
  ran h time t k m =
      let e = dispatch_found h k m in
      let call =
        ap (λ w. h w (time_for marshal cfg req) req.param) world-check_caps
        ∙ ap (λ n. h s.world n req.param) t in
      (
        ap (λ p. p.0.world) e ∙ ap (λ p. p.0) call,
        ap (λ p. p.1) e ∙ ap (λ p. response_of marshal p.1) call,
      )

  -- An op that is unknown or has no handler is answered by bad_op and changes nothing; any other
  -- reaches its own handler once, in a bounded time if the deadlines are those of the helper's
  -- configuration, and the reply and the host are what that handler made of them.
  pub dispatch_runs :
      (overrides : Overrides)
      → cfg.op_deadline ≡ some (op_deadline overrides)
      → ((is_known_op req.op ≡ false) ⊎ (Registry.lookup req.op cfg.registry ≡ none)
          → ((dispatch marshal cfg req s).0 ≡ s)
            × ((msg : Bytes) × ((dispatch marshal cfg req s).1 ≡ err_resp bad_op msg)))
        × ((h : Handler W V)
            → is_known_op req.op ≡ true
            → Registry.lookup req.op cfg.registry ≡ some h
            → (time : ℕ) × (min_op_deadline ≤ time)
              × (time ≤ max_op_deadline)
              × ((dispatch marshal cfg req s).0.world ≡ (h s.world time req.param).0)
              × ((dispatch marshal cfg req s).1 ≡ response_of marshal (h s.world time req.param).1))
  dispatch_runs overrides d =
      let time = op_deadline overrides req.op req.deadline_ms in
      let (least, most, _, _) = op_deadline_bounds overrides req.op req.deadline_ms in
      let t : time_for marshal cfg req ≡ time = rw d in
      (refused, λ h k m. let (w, r) = ran h time t k m in (time, least, most, w, r))
