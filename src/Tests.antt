-- ===== src/Tests.antt =====
-- A world in memory, and the theorems at concrete inputs.
mod Memory
mod Store
mod Data
mod Pools
mod Claims
mod Contest
mod Isolation
mod Progress
mod Settled
mod Gateways
mod Runs
mod Ready
mod Deletion
mod Process
mod Healing
mod Phases
mod Exclusive
mod Copies
