-- ===== src/Diagram.antt =====
-- domain/graph.py: graphs whose edges refer to their nodes.
mod Defs
pub mod References
mod Samples
unfoldable pub use Defs.*
