-- ===== src/Tests.antt =====
-- The theorems at concrete inputs.
mod Store
mod Replicas
mod Codec
mod Nodes
mod Services
mod Balancers
mod Routes
mod Plans
mod Metrics
mod Etcd
mod Registry
mod Members
mod Serving
mod Management
mod Startup
