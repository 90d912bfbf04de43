-- ===== src/Lb.antt =====
-- pkg/agent/manager/loadbalancer/loadbalancer.go, the manager of the services of type LoadBalancer.
pub mod Types
pub mod Add
pub mod Annotations
pub mod Mtls
pub mod Desired
pub mod Cache
pub mod Model
pub mod Roles
pub mod Pairs
pub mod Secondary
pub mod Delete
pub mod Discovery
pub mod LifeCycle
pub mod Updates
pub mod Pools
pub mod Hosts
pub mod Signals
pub mod Fixture
pub mod Examples
