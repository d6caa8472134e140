-- ===== src/Escalation.antt =====
-- src/model_router/escalation: the next bounded action after a failure.
pub mod Recovery
pub mod Backoff
pub mod Targets
pub mod Permitted
pub mod Programs
