-- ===== src/Candidates.antt =====
-- src/pgproof/adapters/candidates/generate.py: which indexes are worth a trial.
mod Naming
mod Defs
mod Prefixes
mod Selection
mod Coverage
mod Generation
mod Samples
unfoldable pub use Defs.*
