-- ===== src/Router/Laws.antt =====
-- What holds of every outcome of `route`.
pub mod Loop
pub mod Selection
pub mod Admission
pub mod Readiness
