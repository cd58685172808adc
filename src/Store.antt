-- ===== src/Store.antt =====
-- The database of the platform (prisma/schema.prisma) and the code outside the repository that
-- the services call.
pub mod Rows
pub mod State
pub mod Outside
pub use Rows.*
pub use State.*
pub use Outside.*
