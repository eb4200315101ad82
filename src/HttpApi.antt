-- ===== src/HttpApi.antt =====
-- internal/httpapi/server.go: the management API. A response is its status and what its body says.
pub mod Services
pub mod Nodes
pub mod SoftKv
pub mod Plans
