-- ===== src/Common/Sorting.antt =====
-- `sorted` of the source: a stable sort, by an order or by a key, and the order of texts.
mod Texts
mod Laws
mod Unique
unfoldable pub use Texts.*
unfoldable pub use Laws.*
pub use Unique.*
