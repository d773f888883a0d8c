-- ===== src/Ai.antt =====
-- backend/app/modules/ai: the decision of the support agent, from the classification of a message to
-- the reply, the soft reply or the escalation.
pub mod State
pub mod Policy
pub mod Draft
pub mod Confidence
pub mod Escalation
pub mod Agent
pub mod Outcome
pub mod Soft
pub mod Handover
mod Tests
