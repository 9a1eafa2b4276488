-- ===== src/Helper/Invoke/Budget.antt =====
-- The time that daemon/internal/daemon/helperinvoke/helperinvoke.go leaves the helper, and what
-- daemon/internal/helper/config/config.go makes of it.
use host_health_mcp.Base.{ℕ, ◌+◌, ◌-◌, ◌*◌, ◌≤◌, ◌<◌, ◌≡◌, String, arith, max}
use host_health_mcp.Helper.Deadline.{
  pos, millisecond, min_op_deadline, Overrides, op_deadline, op_deadline_bounds,
}
use host_health_mcp.Helper.Invoke.{helper_deadline_budget, socket_deadline, deadline_ms_until}

deadline_ms_until_lem :
    (now dl : ℕ)
    → (1 ≤ deadline_ms_until now dl)
      × (now < dl
          → (dl - now ≤ deadline_ms_until now dl * millisecond)
            × (deadline_ms_until now dl * millisecond < dl - now + millisecond))
unfolding deadline_ms_until
deadline_ms_until_lem now dl = ground arith

-- A call with a deadline never asks for "no budget": it sends at least one millisecond, and while
-- time is left exactly that time rounded up; the socket's deadline is 500 ms before the call's
-- where there is that much; and the helper gives the op no longer than the time sent, unless this
-- is less than the least deadline of an op.
pub budget_lem :
    (overrides : Overrides) (op : String) (dialled framed deadline : ℕ)
    → (let dl = socket_deadline dialled deadline in
        let ms = deadline_ms_until framed dl in
        (1 ≤ ms)
        × (framed < dl
            → (dl - framed ≤ ms * millisecond) × (ms * millisecond < dl - framed + millisecond))
        × (dl ≤ deadline)
        × (dialled + helper_deadline_budget < deadline → dl + helper_deadline_budget ≡ deadline)
        × (op_deadline overrides op (pos ms) ≤ max min_op_deadline (ms * millisecond)))
unfolding socket_deadline
budget_lem overrides op dialled framed deadline =
    let dl = socket_deadline dialled deadline in
    let ms = deadline_ms_until framed dl in
    let (least, exact) = deadline_ms_until_lem framed dl in
    let bound = (op_deadline_bounds overrides op (pos ms)).3 ms (ground (arith, least)) in
    (least, exact, ground arith, ground arith, omega (arith, bound))
