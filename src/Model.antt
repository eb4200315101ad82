-- ===== src/Model.antt =====
-- internal/model: the records that the parts of the program exchange.
pub mod Service
