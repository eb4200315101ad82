-- ===== src/Traffic.antt =====
-- internal/traffic: the traffic plane, which routes requests to upstream addresses.
pub mod Floats
pub mod Balancer
pub mod Match
pub mod Plan
pub mod Resolve
pub mod Metrics
pub mod Forward
pub mod Serve
pub mod Refresh
pub mod Dial
pub mod Sessions
