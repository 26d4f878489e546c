-- ===== src/Controller/Footprint.antt =====
-- What a run for one request may write besides what requests share: its own claim, and the DNS
-- records of its hostname and of its certificate's validation.
mod Defs
mod Cluster
mod Dns
mod Assigning
mod Drifting
mod Claiming
mod Stepping
mod Deleting
mod Whole
pub mod Owners
mod Finished
pub mod Steady
pub mod Exclusive
pub mod Isolation
pub use Defs.*
