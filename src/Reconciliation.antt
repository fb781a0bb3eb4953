-- ===== src/Reconciliation.antt =====
-- src/pgproof/domain/reconciliation.py: the migrated schema against the design that the code declares.
mod Defs
mod Drift
mod Completeness
mod Relations
mod Report
mod Samples
unfoldable pub use Defs.*
