-- ===== src/Base/Table/Rules.antt =====
-- What the statements on a table keep and change.
pub mod Rows
pub mod Classes
pub use Rows.*
pub use Classes.*
pub mod Selected
pub use Selected.*
