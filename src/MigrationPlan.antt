-- ===== src/MigrationPlan.antt =====
-- domain/migration_plan.py: migration plans.
mod Defs
mod Expansion
mod Edges
mod Degrees
pub mod Staging
mod Loop
mod Validation
pub mod Order
mod Samples
unfoldable pub use Defs.*
unfoldable pub use Expansion.*
