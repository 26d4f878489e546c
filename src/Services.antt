-- ===== src/Services.antt =====
-- What the controller calls and does not implement: the Kubernetes API through the
-- controller-runtime client, the helpers of the Kubernetes libraries, and the clock.
mod Types
pub mod Laws
pub use Types.*
