-- ===== src/Notifications.antt =====
-- Notifications of users, teams and managers (backend/app/modules/notifications).
pub mod Service
pub mod Delivery
pub mod Defaults
mod Tests
