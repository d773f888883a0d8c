-- ===== src/Conversations/Tests.antt =====
-- A free conversation that agent 5 takes over.
use ai_customer_support_plat.Prelude.{
  ℕ, inl, Bool, true, false, raises, ◌⊎◌, ◌∷◌, List, returns, ◌≡◌, refl, [], none, some, ◌==◌,
  if◌then◌else◌,
}
use ai_customer_support_plat.Domain.{
  Conversation, Db, AgentAvailability, online, closed, web_chat, open_status, normal, ai_control,
  human_control,
}
use ai_customer_support_plat.Assignment.Writes.{plus, get_conversation}
use ai_customer_support_plat.Conversations.Control.{ControlEntry, takeover, return_to_ai}
use ai_customer_support_plat.Conversations.Takeover.{takeover_lem}
use ai_customer_support_plat.Prelude.{◌||◌, String}
use ai_customer_support_plat.Auth.Permissions.{has, conversations_assign}
use ai_customer_support_plat.Assignment.Transfer.{recount}
use ai_customer_support_plat.Conversations.Update.{
  ConversationUpdate, UpdateEntry, has_null, null_value, row_refused, update_conversation,
}
use ai_customer_support_plat.Conversations.Updated.{
  IsUpdated, update_conversation-counts, update_conversation-counts_twice,
}

abbrev chat : Conversation
chat = record {
  organization_id = 9;
  customer_id = 1;
  channel = web_chat;
  status = open_status;
  priority = normal;
  assigned_user_id = none;
  assigned_team_id = none;
  subject = none;
  ai_control_mode = ai_control;
}

abbrev desk : Db
desk = record {
  conversations = λ c. if c == 100 then some chat else none;
  teams = [];
  members = [];
  availability = λ u. none;
  tickets = [];
  timers = [];
  policies = [];
  events = [];
  depth = 0;
}

takeover_lem_example :
    ((entry : ControlEntry) × (db' : Db) × (takeover 5 9 100 desk ≡ some (entry, db'))
      × (entry.new_mode ≡ human_control)
      × (db'.conversations 100
          ≡ some (record chat { ai_control_mode = human_control; assigned_user_id = some 5 })))
    × ((entry : ControlEntry) × (db' : Db) × (return_to_ai 5 9 100 desk ≡ some (entry, db'))
        × (entry.new_mode ≡ ai_control)
        × (db'.conversations 100 ≡ some (record chat { ai_control_mode = ai_control })))
unfolding get_conversation
takeover_lem_example = takeover_lem 5 9 100 desk chat refl

-- Agents 5 and 6, each with one open conversation.
abbrev busy : AgentAvailability
busy = record { status = online; active_conversation_count = 1 }

abbrev staffed : Conversation → Db
staffed c = record desk {
  conversations = λ k. if k == 100 then some c else none;
  availability = λ u. if u == 5 || u == 6 then some busy else none;
}

abbrev mine : Conversation
mine = record chat { assigned_user_id = some 5 }

-- Closed and given to agent 6.
abbrev closing : ConversationUpdate
closing = record {
  status = some (some closed);
  priority = none;
  assigned_user_id = some (some 6);
  assigned_team_id = none;
  subject = none;
}

abbrev over : Conversation
over = record mine { status = closed }

-- Reopened and given to agent 6.
abbrev reopening : ConversationUpdate
reopening = record closing { status = some (some open_status) }

abbrev same_time : ℕ → ℕ
same_time t = t

abbrev assigners : List String
assigners = conversations_assign ∷ []

-- A database that knows the agents 5 and 6.
abbrev known : ℕ → Conversation → Bool
known cid c = elim c.assigned_user_id [ none ↦ true | some u ↦ u == 5 || u == 6 ]

update_conversation-counts_example :
    ((has_null closing ≡ true)
      × (update_conversation same_time same_time none 0 known 5 9 assigners 100 closing
            (staffed mine)
          ≡ raises null_value))
    ⊎ (((has_null closing ≡ false)
          × (known 100 (record over { assigned_user_id = some 6 }) ≡ false)
          × (update_conversation same_time same_time none 0 known 5 9 assigners 100 closing
                (staffed mine)
              ≡ raises row_refused))
        ⊎ ((has_null closing ≡ false)
            × (known 100 (record over { assigned_user_id = some 6 }) ≡ true)
            × IsUpdated 9 100 mine
                (record over { assigned_user_id = some 6 })
                (staffed mine)
                (update_conversation same_time same_time none 0 known 5 9 assigners 100 closing
                  (staffed mine))))
unfolding get_conversation has
update_conversation-counts_example =
    update_conversation-counts same_time same_time none 0 known 5 9 100 assigners closing
      (staffed mine) mine refl refl refl (inl refl)

update_conversation-counts_twice_example :
    (entries : List UpdateEntry) × (db' : Db) × (update_conversation same_time same_time none 0
        known 5 9 assigners 100 reopening
        (staffed over)
      ≡ returns (entries, db'))
    × (db'.availability 6 ≡ recount (plus 2) (some busy))
unfolding get_conversation has
update_conversation-counts_twice_example =
    update_conversation-counts_twice same_time same_time none 0 known 5 9 100 assigners reopening
      (staffed over) over refl refl refl 6 refl refl refl refl refl refl
