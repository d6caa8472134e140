-- ===== src/Examples.antt =====
-- The theorems at concrete inputs.
mod Routing
mod Budgeting
mod Funding
mod Passing
mod Monitoring
mod Serving
mod Ledgers
mod Journals
mod Configured
mod Spent
mod Planned
