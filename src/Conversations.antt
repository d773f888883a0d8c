-- ===== src/Conversations.antt =====
-- backend/app/modules/conversations: who controls a conversation, the support agent or a human.
pub mod Control
pub mod Takeover
pub mod Update
pub mod Counts
pub mod Effects
pub mod Updated
mod Tests
