-- ===== src/Assignment.antt =====
-- Conversation and ticket assignment (backend/app/modules/assignment/application/service.py).
pub mod Rotation
pub mod Writes
pub mod Service
pub mod Order
pub mod Choice
pub mod Frame
pub mod Turns
pub mod Team
pub mod Keeping
pub mod Ensure
pub mod Transfer
mod Tests
