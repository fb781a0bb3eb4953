-- ===== src/Workload.antt =====
-- src/pgproof/adapters/workload: operations and repeated queries, from a stream of captured events.
mod Events
mod Reconstruct
mod Counts
mod Operations
mod Amplification
mod Repetitions
mod Annotate
mod Samples
unfoldable pub use Events.*
unfoldable pub use Reconstruct.*
