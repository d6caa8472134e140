-- ===== src/Policy.antt =====
-- src/model_router/policy: the pure components that the router composes.
pub mod Capabilities
pub mod Costs
pub mod Budgets
pub mod Rules
pub mod Modifiers
pub mod Validation
