-- ===== src/Domain/Models.antt =====
-- backend/app/infrastructure/database/models.py and the enums and rows of the SLA and agent modules.
-- Identifiers are UUIDs, read as the numbers that their canonical texts stand for: those texts have
-- one length and are ordered as the numbers are, and none of them is empty. Columns that no modelled
-- operation reads or writes are left out.
use ai_customer_support_plat.Prelude.{ℕ, Bool, List, Option, Table, Text, [], ◌∷◌, ◌++◌}

pub data ChannelType : Type 0 where
  web_chat email form : ChannelType

pub data ConversationStatus : Type 0 where
  open_status pending waiting_for_agent closed : ConversationStatus

pub data AiControlMode : Type 0 where
  ai_control human_control : AiControlMode

pub data Priority : Type 0 where
  low normal high urgent : Priority

pub data SenderType : Type 0 where
  customer agent ai system : SenderType

pub data TicketSource : Type 0 where
  ai_escalation missed_chat agent_created help_center automation : TicketSource

pub data AgentStatus : Type 0 where
  online away offline : AgentStatus

pub data SlaTimerType : Type 0 where
  first_response resolution : SlaTimerType

pub data SlaTimerStatus : Type 0 where
  running paused completed breached : SlaTimerStatus

pub record Conversation : Type 0 where
  pub organization_id : ℕ
  pub customer_id : ℕ
  pub channel : ChannelType
  pub status : ConversationStatus
  pub priority : Priority
  pub assigned_user_id : Option ℕ
  pub assigned_team_id : Option ℕ
  pub subject : Option Text
  pub ai_control_mode : AiControlMode

pub record Team : Type 0 where
  pub id : ℕ
  pub organization_id : ℕ
  pub name : Text
  pub description : Option Text
  pub last_assigned_user_id : Option ℕ

pub record TeamMember : Type 0 where
  pub team_id : ℕ
  pub user_id : ℕ

pub record AgentAvailability : Type 0 where
  pub status : AgentStatus
  pub active_conversation_count : ℕ

pub record Ticket : Type 0 where
  pub id : ℕ
  pub organization_id : ℕ
  pub conversation_id : ℕ
  pub priority : Priority
  pub assigned_user_id : Option ℕ
  pub assigned_team_id : Option ℕ

-- Times are microseconds.
pub record SlaTimer : Type 0 where
  pub organization_id : ℕ
  pub sla_policy_id : ℕ
  pub conversation_id : ℕ
  pub timer_type : SlaTimerType
  pub started_at : ℕ
  pub due_at : ℕ
  pub paused_at : Option ℕ
  pub completed_at : Option ℕ
  pub breached_at : Option ℕ
  pub status : SlaTimerStatus

-- `applies_to` is read for its key `priority` alone.
pub record SlaPolicy : Type 0 where
  pub id : ℕ
  pub organization_id : ℕ
  pub first_response_minutes : ℕ
  pub resolution_minutes : ℕ
  pub applies_to_priority : Option Priority
  pub enabled : Bool

-- The names of the events that an update of a conversation publishes.
pub data UpdateName : Type 0 where
  conversation_updated assigned reopened conversation_closed : UpdateName

-- What the services publish on the event bus: the name with its payload.
pub data DomainEvent : Type 0 where
  conversation_assigned :
      (organization_id conversation_id : ℕ) (user team : Option ℕ) (execution_depth : ℕ)
      → DomainEvent
  conversation_reopened : (organization_id conversation_id : ℕ) → DomainEvent
  conversation_changed : (organization_id conversation_id : ℕ) → DomainEvent
  conversation_written :
      (name : UpdateName) (organization_id conversation_id : ℕ) (status : ConversationStatus)
      (priority : Priority) (user team : Option ℕ)
      → DomainEvent

-- Conversations by id, availability by user id (unique), and the other tables as rows. `events` is
-- what was published so far, `depth` the context variable `automation_execution_depth`.
pub record Db : Type 0 where
  pub conversations : Table Conversation
  pub teams : List Team
  pub members : List TeamMember
  pub availability : Table AgentAvailability
  pub tickets : List Ticket
  pub timers : List SlaTimer
  pub policies : List SlaPolicy
  pub events : List DomainEvent
  pub depth : ℕ

abbrev pub publish : DomainEvent → Db → Db
publish e db = record db { events = db.events ++ e ∷ [] }
