-- ===== src/Fleet.antt =====
-- The models that review a branch: sidecar/pool.py and the planning of sidecar/runner.py.
pub mod Models
pub mod Pool
pub mod Tiers
pub mod Seats
pub mod OwnLanes
pub mod OwnSlots
pub mod Failover
pub mod FirstServed
pub mod Switches
pub mod Escalation
pub mod Backends
pub mod Accounted
pub mod Promotions
pub mod Roles
pub mod Breaker
pub mod Cooling
mod Examples
