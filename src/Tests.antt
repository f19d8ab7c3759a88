-- ===== src/Tests.antt =====
-- Runs at concrete inputs, over a server that keeps its objects in memory.
pub mod Memory
pub mod Data
pub mod Texts
pub mod Admission
pub mod Pools
pub mod Claims
pub mod Setup
pub mod System
pub mod Threads
pub mod Endings
pub mod Slices
pub mod Copies
