-- ===== src/Pool.antt =====
-- internal/gateway/pool.go: the pool of gateways; selection by first fit, the next free index, and
-- the gateway that is created. Kubernetes and the label selectors are parameters.
pub mod Defs
pub mod Select
pub mod Create
pub mod Index
pub mod Bounds
pub use Defs.{Pool, GatewayInfo}
unfoldable pub use Defs.{new_pool}
