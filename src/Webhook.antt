-- ===== src/Webhook.antt =====
-- The admission webhooks (internal/webhook).
pub mod AwsMachine
pub mod EniPool
pub mod EniClaim
