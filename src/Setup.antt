-- ===== src/Setup.antt =====
-- The start of the process: cmd/main.go, the SetupWithManager functions that it calls, and the
-- registration of the API group.
pub mod Boot
pub mod Options
pub mod Managed
pub mod Main
pub mod Expected
pub mod Plan
pub mod Servers
pub mod Scheme
pub mod Known
