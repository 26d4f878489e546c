-- ===== src/Api.antt =====
-- The custom resources (api/v1alpha1) and the shape of the Kubernetes objects that the program
-- reads and writes.
pub mod Meta
pub mod Request
pub mod Claim
pub mod Cluster
pub mod Grant
pub mod DeepCopy
