-- ===== src/System.antt =====
-- The machine webhook, the machine controller and the claims together: who has which interface.
pub mod Owners
pub mod Acquired
pub mod Refines
pub mod Exclusive
pub mod Admitted
pub mod Threads
