-- ===== src/Advice.antt =====
-- domain/questions.py, domain/ir/context.py, domain/recommendations.py, domain/scenarios.py and
-- domain/integrity.py: what is asked, answered and recommended, and how the parts cite each other.
mod Questions
mod Recommendations
mod Equality
mod Answers
mod Scenarios
mod Integrity
pub mod Blockers
pub mod Recording
pub mod Contract
pub mod Diffs
mod Samples
pub mod References
unfoldable pub use Questions.*
unfoldable pub use Recommendations.*
unfoldable pub use Equality.*
unfoldable pub use Answers.*
unfoldable pub use Scenarios.*
unfoldable pub use Integrity.*
