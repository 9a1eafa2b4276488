-- ===== src/Firewall/Inspect/Budget.antt =====
-- The element budget of `FirewallInspect` in daemon/internal/helper/ops/firewall.go, over whole replies.
use host_health_mcp.Base.{ℕ, ◌+◌, ◌≤◌, List, All}
use host_health_mcp.Base.Eq.{bytes_eq}
use host_health_mcp.Base.Assoc
use host_health_mcp.Base.Result.{Result, ok, err}
use host_health_mcp.Firewall.{Std}
use host_health_mcp.Firewall.Render.{SetRow}
use host_health_mcp.Firewall.Walk.{FirewallReq, clamp_set_elements, firewall_elem_budget}
use host_health_mcp.Firewall.Elements.{Fetched}
use host_health_mcp.Firewall.Inspect.{FirewallResult, InspectError, Env, values}
use host_health_mcp.Firewall.Inspect.Inline.{inline_elements, Within}

-- What the loop keeps: the elements that are there and those that may still come.
abbrev InBudget : ℕ → ℕ → Fetched → Type 0
InBudget budget most f =
    (inline_elements (values f.sets) + f.remaining ≤ budget) × All (Within most) (values f.sets)

module _ {Raw A P : Type 0} (std : Std Raw A P) (env : Env Raw) where
  abbrev pub WithinBudget : FirewallReq → List SetRow → Type 0
  WithinBudget req sets =
      (inline_elements sets ≤ firewall_elem_budget)
      × All (Within (clamp_set_elements req.max_set_elements)) sets

  -- The bounds of a reply, or nothing of an error.
  abbrev OkWithin : FirewallReq → Result InspectError FirewallResult → Type 0
  OkWithin req (err e) = Unit
  OkWithin req (ok res) = WithinBudget req res.sets
