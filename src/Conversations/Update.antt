-- ===== src/Conversations/Update.antt =====
-- backend/app/modules/conversations/service.py: `update_conversation`. A field of the body is `none`
-- where it is unset, and `some none` where it is given as null: that clears an assignment or the
-- subject, and raises for the status and the priority, where the flush refuses the null or `.value`
-- reads it. `accepts cid row` is whether the database stores the row: its foreign keys and the
-- subject's length are the database's to check. A raise rolls the session back and carries no state;
-- an event that such a call published before it is not modelled.
-- The clock and the tables that SLAService reads are arguments.
use ai_customer_support_plat.Prelude.{
  ℕ, Bool, true, false, not, ◌&&◌, ◌||◌, List, [], ◌∷◌, Text, ◌++◌, Option, none, some, String,
  opt_eq, is_some, if◌then◌else◌, Attempt, returns, raises, ◌>>◌, guard,
}
use ai_customer_support_plat.Domain.{
  Conversation, ConversationStatus, closed, Priority, UpdateName, conversation_updated, assigned,
  reopened, conversation_closed, conversation_written, Db, publish,
}
use ai_customer_support_plat.Auth.Permissions.{has, conversations_assign}
use ai_customer_support_plat.Assignment.Writes.{
  plus, minus, adjust_active_count, get_conversation, write_conversation, sync_tickets,
}
use ai_customer_support_plat.Assignment.Service.{ensure_assignee_for_team}
use ai_customer_support_plat.Hours.Calendar.{BusinessHours}
use ai_customer_support_plat.Sla.Service.{
  priority_eq, start_timers, complete_resolution, resume_timers,
}

pub record ConversationUpdate : Type 0 where
  pub status : Option (Option ConversationStatus)
  pub priority : Option (Option Priority)
  pub assigned_user_id : Option (Option ℕ)
  pub assigned_team_id : Option (Option ℕ)
  pub subject : Option (Option Text)

pub data UpdateError : Type 0 where
  conversation_not_found missing_assign_permission null_value row_refused : UpdateError

-- The values that the audit entries and the event show.
pub record Shown : Type 0 where
  pub status : ConversationStatus
  pub priority : Priority
  pub assigned_user_id : Option ℕ
  pub assigned_team_id : Option ℕ

pub record UpdateEntry : Type 0 where
  pub actor_id : ℕ
  pub action : UpdateName
  pub entity_id : ℕ
  pub old_value : Shown
  pub new_value : Shown

abbrev pub shown : Conversation → Shown
shown c = record {
  status = c.status;
  priority = c.priority;
  assigned_user_id = c.assigned_user_id;
  assigned_team_id = c.assigned_team_id;
}

abbrev pub is_closed : ConversationStatus → Bool
is_closed closed = true
is_closed _ = false

abbrev pub or_old : {A : Type 0} → Option A → A → A
or_old none old = old
or_old (some new) old = new

-- A column that holds no null: a null never gets past the flush.
abbrev pub or_old_value : {A : Type 0} → Option (Option A) → A → A
or_old_value (some (some new)) old = new
or_old_value (some none) old = old
or_old_value none old = old

abbrev pub is_null : {A : Type 0} → Option (Option A) → Bool
is_null none = false
is_null (some none) = true
is_null (some (some _)) = false

-- The status or the priority is given as null.
abbrev pub has_null : ConversationUpdate → Bool
has_null body = is_null body.status || is_null body.priority

-- `setattr` for each field that is set; `team` is the team's, left out where it is popped.
abbrev pub set_fields : ConversationUpdate → Option (Option ℕ) → Conversation → Conversation
set_fields body team c = record c {
  status = or_old_value body.status c.status;
  priority = or_old_value body.priority c.priority;
  assigned_user_id = or_old body.assigned_user_id c.assigned_user_id;
  assigned_team_id = or_old team c.assigned_team_id;
  subject = or_old body.subject c.subject;
}

-- `team_changing`
abbrev pub is_team_changing : ConversationUpdate → Conversation → Bool
is_team_changing body conv = elim body.assigned_team_id [
  | none ↦ false
  | some team ↦ not (opt_eq team conv.assigned_team_id)
]

-- The new team of `team_changing and new_team_id and not user_in`.
abbrev pub moved_team : ConversationUpdate → Conversation → Option ℕ
moved_team body conv =
    if is_team_changing body conv && not (is_some body.assigned_user_id)
    then or_old body.assigned_team_id none
    else none

-- The row that is flushed: a team alone is not set on it.
abbrev pub flushed : ConversationUpdate → Conversation → Conversation
flushed body conv = elim (moved_team body conv) [
  | some _ ↦ set_fields body none conv
  | none ↦ set_fields body body.assigned_team_id conv
]

-- The counts of the two assignees, when they differ.
abbrev pub recount_users : Option ℕ → Option ℕ → Db → Db
recount_users old new db =
    if opt_eq old new
    then db
    else adjust_active_count new (plus 1) (adjust_active_count old (minus 1) db)

-- The fields are set; a team alone is left to `ensure_assignee_for_team`.
unfoldable pub assign_fields : ℕ → ℕ → ConversationUpdate → Conversation → Db → Db
assign_fields org cid body conv db = elim (moved_team body conv) [
  | some tid ↦
      let db1 = write_conversation cid (set_fields body none) db in
      (ensure_assignee_for_team org tid (some cid) none true true db1).1
  | none ↦
      let new = set_fields body body.assigned_team_id conv in
      let db1 = write_conversation cid (set_fields body body.assigned_team_id) db in
      let db2 = recount_users conv.assigned_user_id new.assigned_user_id db1 in
      if is_team_changing body conv || is_some body.assigned_user_id
      then sync_tickets cid new.assigned_team_id new.assigned_user_id none true db2
      else db2
]

-- `event_name`: a later test overrides an earlier one.
abbrev pub event_name : Conversation → Conversation → UpdateName
event_name old new =
    if not (is_closed old.status) && is_closed new.status
    then conversation_closed
    else if is_closed old.status && not (is_closed new.status)
    then reopened
    else if not (opt_eq old.assigned_user_id new.assigned_user_id)
        || not (opt_eq old.assigned_team_id new.assigned_team_id)
    then assigned
    else conversation_updated

unfoldable pub audit_entries : ℕ → ℕ → Conversation → Conversation → List UpdateEntry
audit_entries actor cid old new =
    let entry : UpdateName → UpdateEntry = λ action. record {
      actor_id = actor;
      action = action;
      entity_id = cid;
      old_value = shown old;
      new_value = shown new;
    } in
    (if not (opt_eq old.assigned_user_id new.assigned_user_id)
        || not (opt_eq old.assigned_team_id new.assigned_team_id)
      then entry assigned ∷ []
      else [])
    ++ (if not (is_closed old.status) && is_closed new.status
        then entry conversation_closed ∷ []
        else [])

module _ (to_local to_utc : ℕ → ℕ) (hours : Option BusinessHours) (now : ℕ) where
  unfoldable pub restart_timers : ℕ → ℕ → Conversation → Conversation → Db → Db
  restart_timers org cid old new db =
      if priority_eq old.priority new.priority then db else record db {
        timers = start_timers to_local to_utc db.policies hours now org cid new.priority db.timers;
      }

  unfoldable pub close_or_reopen : ℕ → Conversation → Conversation → Db → Db
  close_or_reopen cid old new db =
      if not (is_closed old.status) && is_closed new.status
      then adjust_active_count new.assigned_user_id (minus 1)
          (record db { timers = complete_resolution now cid db.timers })
      else if is_closed old.status && not (is_closed new.status)
      then adjust_active_count new.assigned_user_id (plus 1)
          (record db { timers = resume_timers cid db.timers })
      else db

  -- What follows once the row is as `new`.
  unfoldable pub follow_up : ℕ → ℕ → ℕ → Conversation → Conversation → Db → List UpdateEntry × Db
  unfolding restart_timers close_or_reopen audit_entries
  follow_up actor org cid old new db =
      let db1 = close_or_reopen cid old new (restart_timers org cid old new db) in
      (
        audit_entries actor cid old new,
        publish
            (conversation_written (event_name old new) org cid new.status new.priority
              new.assigned_user_id new.assigned_team_id)
            db1,
      )

  unfoldable pub update_conversation :
      (ℕ → Conversation → Bool)
      → ℕ
      → ℕ
      → List String
      → ℕ
      → ConversationUpdate
      → Db
      → Attempt UpdateError (List UpdateEntry × Db)
  unfolding assign_fields follow_up
  update_conversation accepts actor org permissions cid body db =
      elim (get_conversation cid org db) [
        | none ↦ raises conversation_not_found
        | some conv ↦ (do
          guard
              ((is_some body.assigned_user_id || is_some body.assigned_team_id)
                && not (has conversations_assign permissions))
              missing_assign_permission
          guard (has_null body) null_value
          guard (not (accepts cid (flushed body conv))) row_refused
          let db1 = assign_fields org cid body conv db
          elim (db1.conversations cid) [
            | none ↦ raises conversation_not_found
            | some new ↦ returns (follow_up actor org cid conv new db1)
          ])
      ]
