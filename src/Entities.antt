-- ===== src/Entities.antt =====
-- The enumerations (src/shared/enums) and the rows of the database (src/*/entities).
mod Enums
pub mod Json
mod Rows
unfoldable pub use Enums.*
pub use Rows.*
