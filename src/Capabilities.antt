-- ===== src/Capabilities.antt =====
-- Linux capabilities of the root helper: the grant decided at install time in Plan
-- (daemon/internal/shared/capsplan/capsplan.go), and the mask read at run time in Effective
-- (daemon/internal/helper/caps/caps.go).
pub mod Plan
pub mod Effective
mod Examples
