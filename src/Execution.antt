-- ===== src/Execution.antt =====
-- src/model_router/execution: what one bounded action needs before it is dispatched.
mod Ports
unfoldable pub use Ports.*
pub mod Admission
pub mod Funds
pub mod Lifecycle
pub mod Accounting
