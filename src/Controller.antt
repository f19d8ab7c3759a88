-- ===== src/Controller.antt =====
-- The reconcilers (internal/controller).
pub mod AwsMachine
pub mod EniClaim
pub mod EniPool
