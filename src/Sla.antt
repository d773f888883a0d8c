-- ===== src/Sla.antt =====
-- SLA timers (backend/app/modules/sla/application/service.py).
pub mod Service
pub mod Invariant
pub mod Active
pub mod Started
mod Tests
