-- ===== src/Router.antt =====
-- src/model_router/router.py: `route`, in the stages of its text.
--
-- The digests (decision id, configuration hash, pricing versions) and the free-form
-- `rationale_details` are provenance that no branch reads; they are left out.
mod Assess
mod Choose
mod Decide
mod Route
unfoldable pub use Assess.*
unfoldable pub use Choose.*
unfoldable pub use Decide.*
unfoldable pub use Route.*
pub mod Laws
