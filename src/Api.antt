-- ===== src/Api.antt =====
-- api/v1alpha1: the resource types and constants of the controller's own API group.
pub mod Constants
pub mod Meta
pub mod Claim
pub mod Pool
