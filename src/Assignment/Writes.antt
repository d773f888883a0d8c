-- ===== src/Assignment/Writes.antt =====
-- The reads and writes that the methods of `AssignmentService` are made of: the active counts, one
-- conversation's fields, a team's last assignee, the linked tickets and the published event.
use ai_customer_support_plat.Prelude.{
  ℕ, ◌+◌, ◌-◌, Bool, false, not, ◌&&◌, ◌||◌, List, [], ◌∷◌, Option, none, some, Table, put, ◌==◌,
  opt_eq, if◌then◌else◌, contains,
}
use ai_customer_support_plat.Domain.{
  Conversation, Team, AgentAvailability, Ticket, Db, conversation_assigned, publish,
}
use ai_customer_support_plat.Assignment.Rotation.{member_ids, is_eligible}

pub data Delta : Type 0 where
  plus minus : ℕ → Delta

-- `max(0, count + delta)`
abbrev pub apply_delta : Delta → ℕ → ℕ
apply_delta (plus n) c = c + n
apply_delta (minus n) c = c - n

abbrev pub is_zero : Delta → Bool
is_zero (plus n) = n == 0
is_zero (minus n) = n == 0

abbrev pub adjust_row :
    ℕ → Delta → Option AgentAvailability → Table AgentAvailability → Table AgentAvailability
adjust_row u d none rows = rows
adjust_row u d (some a) rows =
    put u (record a { active_conversation_count = apply_delta d a.active_conversation_count }) rows

-- `_adjust_active_count(user_id, delta)`
unfoldable pub adjust_active_count : Option ℕ → Delta → Db → Db
adjust_active_count none d db = db
adjust_active_count (some u) d db =
    if is_zero d
    then db
    else record db { availability = adjust_row u d (db.availability u) db.availability }

-- `_publish_assigned(conv, organization_id)`, of the row as it stands.
abbrev pub publish_row : ℕ → ℕ → Option Conversation → Db → Db
publish_row cid org none db = db
publish_row cid org (some c) db =
    publish (conversation_assigned org cid c.assigned_user_id c.assigned_team_id (db.depth + 1)) db

unfoldable pub publish_assigned : ℕ → ℕ → Db → Db
publish_assigned cid org db = publish_row cid org (db.conversations cid) db

-- A write to the fields of one conversation.
abbrev pub write_row : ℕ → (Conversation → Conversation) → Option Conversation → Db → Db
write_row cid f none db = db
write_row cid f (some c) db = record db { conversations = put cid (f c) db.conversations }

unfoldable pub write_conversation : ℕ → (Conversation → Conversation) → Db → Db
write_conversation cid f db = write_row cid f (db.conversations cid) db

abbrev pub set_user : Option ℕ → Conversation → Conversation
set_user u c = record c { assigned_user_id = u }

abbrev pub set_team : Option ℕ → Conversation → Conversation
set_team t c = record c { assigned_team_id = t }

-- `team.last_assigned_user_id = agent_id`
unfoldable pub set_last : ℕ → ℕ → List Team → List Team
set_last tid u [] = []
set_last tid u (t ∷ ts) =
    (if t.id == tid then record t { last_assigned_user_id = some u } else t) ∷ set_last tid u ts

abbrev pub remember : ℕ → ℕ → Db → Db
remember tid u db = record db { teams = set_last tid u db.teams }

-- The conversation that a method works on: present, and of the organisation.
abbrev pub own_row : ℕ → Option Conversation → Option Conversation
own_row org none = none
own_row org (some c) = if c.organization_id == org then some c else none

unfoldable pub get_conversation : ℕ → ℕ → Db → Option Conversation
get_conversation cid org db = own_row org (db.conversations cid)

-- `_user_on_team`
unfoldable pub user_on_team : ℕ → ℕ → Db → Bool
unfolding member_ids
user_on_team u tid db = contains u (member_ids tid db.members)

-- A ticket is synced if it is the primary one, or linked to the conversation when that is asked.
abbrev pub is_synced : ℕ → Option ℕ → Bool → Ticket → Bool
is_synced cid primary linked t = opt_eq primary (some t.id) || (linked && t.conversation_id == cid)

abbrev pub assign_ticket : Option ℕ → Option ℕ → Ticket → Ticket
assign_ticket team user t = record t { assigned_team_id = team; assigned_user_id = user }

unfoldable pub sync_rows : (Ticket → Bool) → Option ℕ → Option ℕ → List Ticket → List Ticket
sync_rows p team user [] = []
sync_rows p team user (t ∷ ts) =
    (if p t then assign_ticket team user t else t) ∷ sync_rows p team user ts

-- `_sync_tickets_with_conversation`
unfoldable pub sync_tickets : ℕ → Option ℕ → Option ℕ → Option ℕ → Bool → Db → Db
unfolding sync_rows
sync_tickets cid team user primary linked db = record db {
  tickets = sync_rows (is_synced cid primary linked) team user db.tickets;
}

abbrev pub row_refuses : Bool → Bool → Option AgentAvailability → Bool
row_refuses off aw none = false
row_refuses off aw (some a) = not (is_eligible off aw a)
