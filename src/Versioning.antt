-- ===== src/Versioning.antt =====
-- domain/versioning.py: versions of the contract, and which of them a reader takes.
mod Defs
pub mod RoundTrip
pub mod Canonical
mod Samples
unfoldable pub use Defs.*
