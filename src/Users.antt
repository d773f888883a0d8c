-- ===== src/Users.antt =====
-- User administration with its role guards (backend/app/modules/users/service.py).
pub mod Service
pub mod Inversion
pub mod Owners
pub mod Ranks
pub mod Emails
mod Tests
