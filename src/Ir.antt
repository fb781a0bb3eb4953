-- ===== src/Ir.antt =====
-- src/pgproof/domain/ir: the intermediate representations that the analyses exchange. Ids are texts,
-- and what pydantic refuses (an empty text, a malformed id) is refused before such a value exists.
mod Schema
mod Code
mod Workload
unfoldable pub use Schema.*
unfoldable pub use Code.*
unfoldable pub use Workload.*
