-- ===== src/Conversations/Control.antt =====
-- backend/app/modules/conversations/service.py: `takeover` and `return_to_ai`. A method answers with
-- nothing where it raises status 404, else with its audit entry and the database.
use ai_customer_support_plat.Prelude.{ℕ, true, false, Option, none, some}
use ai_customer_support_plat.Domain.{Conversation, AiControlMode, ai_control, human_control, Db}
use ai_customer_support_plat.Assignment.Writes.{get_conversation, write_conversation}
use ai_customer_support_plat.Assignment.Service.{assign_user}

-- The entry of `write_audit`: the actor, the conversation, and the mode that was set.
pub record ControlEntry : Type 0 where
  pub actor_id : ℕ
  pub entity_id : ℕ
  pub new_mode : AiControlMode

abbrev pub set_mode : AiControlMode → Conversation → Conversation
set_mode m c = record c { ai_control_mode = m }

-- The assignment of the actor, whatever the actor's availability.
unfoldable pub claim : ℕ → ℕ → ℕ → Option ℕ → Db → Db
claim actor org cid none db = (assign_user cid org actor false false true db).1
claim actor org cid (some u) db = db

unfoldable pub takeover : ℕ → ℕ → ℕ → Db → Option (ControlEntry × Db)
takeover actor org cid db = elim (get_conversation cid org db) [
  | none ↦ none
  | some conv ↦ some (
    record { actor_id = actor; entity_id = cid; new_mode = human_control },
    claim actor org cid conv.assigned_user_id (write_conversation cid (set_mode human_control) db),
  )
]

unfoldable pub return_to_ai : ℕ → ℕ → ℕ → Db → Option (ControlEntry × Db)
return_to_ai actor org cid db = elim (get_conversation cid org db) [
  | none ↦ none
  | some conv ↦ some (
    record { actor_id = actor; entity_id = cid; new_mode = ai_control },
    write_conversation cid (set_mode ai_control) db,
  )
]
