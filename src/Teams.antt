-- ===== src/Teams.antt =====
-- Teams and their members (backend/app/modules/teams/service.py).
pub mod Service
pub mod Rows
pub mod Members
pub mod Invariant
pub mod Membership
pub mod Steps
pub mod Undo
mod Tests
