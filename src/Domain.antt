-- ===== src/Domain.antt =====
-- The rows that the services share, and the database as one value.
mod Models
pub use Models.*
