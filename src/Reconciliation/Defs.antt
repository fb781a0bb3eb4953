-- ===== src/Reconciliation/Defs.antt =====
-- reconciliation.py. A `_Builder` is the list of what `emit` was called with: its two lists grow
-- together, and `build` reads them off. The id of a piece of evidence (compact JSON) is a parameter.
mod Types
mod Tables
mod Relationships
mod Reconcile
unfoldable pub use Types.*
unfoldable pub use Tables.*
unfoldable pub use Relationships.*
unfoldable pub use Reconcile.*
