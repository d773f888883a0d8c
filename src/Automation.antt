-- ===== src/Automation.antt =====
-- The automation engine (backend/app/modules/automation).
pub mod Values
pub mod Conditions
pub mod Meaning
pub mod Execution
pub mod Runs
pub mod Cascade
mod Tests
