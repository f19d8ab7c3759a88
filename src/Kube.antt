-- ===== src/Kube.antt =====
-- The programs that talk to the API server: requests with what is done next, and no server. What
-- answers is not code of the repository, so it is a parameter of `run` and of the statements.
pub mod Prog
pub mod Go
pub mod Platform
pub mod ClaimStore
pub mod Lifecycle
pub mod Rules
pub mod History
