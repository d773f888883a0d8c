-- ===== src/Hours.antt =====
-- Business hours (backend/app/modules/business_hours/application/service.py).
pub mod Calendar
pub mod Service
pub mod Elapsed
pub mod Due
pub mod Opening
mod Tests
