-- ===== src/Storage.antt =====
-- src/model_router/storage: the parts that decide, without the database's own code.
pub mod Budget
