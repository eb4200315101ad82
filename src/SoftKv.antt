-- ===== src/SoftKv.antt =====
-- internal/softkv: a store of entries that expire, merged from other nodes by gossip.
pub mod Store
pub mod Bus
pub mod Gossip
