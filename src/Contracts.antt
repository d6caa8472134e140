-- ===== src/Contracts.antt =====
-- The records of src/model_router/core/contracts.py, and the part of a validated policy bundle
-- (src/model_router/core/configuration.py) that routing reads. Names are texts, and an amount of
-- money is the number of smallest units that it counts (the comment of Policy/Costs says why that
-- is exact).
mod Enums
mod Requests
mod Quotes
mod Bundle
unfoldable pub use Enums.*
unfoldable pub use Requests.*
unfoldable pub use Quotes.*
unfoldable pub use Bundle.*
