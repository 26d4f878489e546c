-- ===== src/Controller/Progress.antt =====
-- A reconciliation that stops before its end: who runs it again?
mod Defs
mod Stepping
mod Deleting
pub mod Retry
pub use Defs.*
