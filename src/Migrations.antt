-- ===== src/Migrations.antt =====
-- adapters/repository/alembic_static.py: the revisions of a repository, their order, and the
-- schema that their operations replay to.
mod Defs
mod Graph
mod Search
pub mod Cycles
pub mod Order
pub mod Report
pub mod Total
mod Apply
mod Replay
pub mod Keyed
pub mod Named
pub mod Preserved
pub mod Result
mod Samples
unfoldable pub use Defs.*
unfoldable pub use Graph.*
unfoldable pub use Apply.*
unfoldable pub use Replay.*
