-- ===== src/Registry.antt =====
-- internal/registry: the services and the nodes that etcd holds.
pub mod Etcd
pub mod Services
pub mod Cluster
pub mod Nodes
