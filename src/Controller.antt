-- ===== src/Controller.antt =====
-- internal/controller: the reconciler of GatewayHostnameRequests.
pub mod Types
pub mod Claim
pub mod Certificate
pub mod LoadBalancer
pub mod Cleanup
pub mod Gateway
pub mod Assign
pub mod Alias
pub mod Status
pub mod Drift
pub mod Steps
pub mod Delete
pub mod Reconcile
pub mod Footprint
pub mod Progress
