-- ===== src/Identifiers.antt =====
-- src/pgproof/domain/identifiers.py: stable identifiers.
mod Codec
pub mod Framing
mod Identity
pub mod SameObjects
mod Nodes
mod Escape
pub mod RoundTrip
pub mod Canonical
pub mod Tables
pub mod NodeParts
mod Samples
unfoldable pub use Codec.*
unfoldable pub use Nodes.*
unfoldable pub use Framing.*
unfoldable pub use Identity.*
