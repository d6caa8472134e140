-- ===== src/Calibration.antt =====
-- src/model_router/calibration: the journal that bounds what experiments spend.
pub mod Journal
