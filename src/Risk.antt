-- ===== src/Risk.antt =====
-- src/pgproof/adapters/migration_safety/risk.py: what a migration does to the rows that are there.
mod Syntax
mod Assess
mod Rules
mod Migration
mod Samples
unfoldable pub use Syntax.*
unfoldable pub use Assess.*
