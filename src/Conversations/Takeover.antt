-- ===== src/Conversations/Takeover.antt =====
-- What a conversation looks like after it was taken over and after it was given back.
use ai_customer_support_plat.Prelude.{ℕ, ◌≡◌, ◌∙◌, refl, ap, true, false, Option, none, some, arith}
use ai_customer_support_plat.Domain.{Conversation, AiControlMode, ai_control, human_control, Db}
use ai_customer_support_plat.Assignment.Writes.{
  plus, minus, adjust_active_count, get_conversation, write_conversation, set_user,
}
use ai_customer_support_plat.Assignment.Service.{assign_user, move_user}
use ai_customer_support_plat.Assignment.Team.{
  adjust-conversations, publish-conversations, write_self, get_conversation-row,
}
use ai_customer_support_plat.Conversations.Control.{
  ControlEntry, set_mode, claim, takeover, return_to_ai,
}

-- `self.assigned_user_id or actor`
abbrev pub or_actor : Option ℕ → ℕ → Option ℕ
or_actor none actor = some actor
or_actor (some u) actor = some u

move_user-conversations :
    (cid org u : ℕ) (old : Option ℕ) (db : Db)
    → (move_user cid org old u db).conversations
      ≡ (write_conversation cid (set_user (some u)) db).conversations
unfolding move_user
move_user-conversations cid org u old db =
    let db1 = write_conversation cid (set_user (some u)) db in
    let db2 = adjust_active_count old (minus 1) db1 in
    let db3 = adjust_active_count (some u) (plus 1) db2 in
    publish-conversations cid org db3
    ∙ adjust-conversations (some u) (plus 1) db2
    ∙ adjust-conversations old (minus 1) db1

get-after-mode :
    (cid org : ℕ) (m : AiControlMode) (db : Db) (conv : Conversation)
    → get_conversation cid org db ≡ some conv
    → get_conversation cid org (write_conversation cid (set_mode m) db) ≡ some (set_mode m conv)
unfolding get_conversation
get-after-mode cid org m db conv e =
    let (stored, own) = get_conversation-row cid org db conv e in
    rw (write_self cid (set_mode m) db conv stored) (ground (arith, own))

assign_user-free :
    (actor org cid : ℕ) (db : Db) (conv : Conversation)
    → get_conversation cid org db ≡ some conv
    → conv.assigned_user_id ≡ none
    → assign_user cid org actor false false true db ≡ (true, move_user cid org none actor db)
unfolding assign_user
assign_user-free actor org cid db conv e o = rw (e, assign_user) (rw o refl)

claim-row :
    (actor org cid : ℕ) (old : Option ℕ) (db : Db) (conv : Conversation)
    → get_conversation cid org db ≡ some conv
    → conv.assigned_user_id ≡ old
    → (claim actor org cid old db).conversations cid ≡ some (set_user (or_actor old actor) conv)
unfolding claim
claim-row actor org cid none db conv e o =
    let (stored, own) = get_conversation-row cid org db conv e in
    rw (assign_user-free actor org cid db conv e o, claim)
      (ap (λ m. m cid) (move_user-conversations cid org actor none db)
        ∙ write_self cid (set_user (some actor)) db conv stored)
claim-row actor org cid (some u) db conv e o =
    (get_conversation-row cid org db conv e).0 ∙ ap (λ x. some (set_user x conv)) o

takeover-found :
    (actor org cid : ℕ) (db : Db) (conv : Conversation)
    → get_conversation cid org db ≡ some conv
    → takeover actor org cid db
      ≡ some (
        record { actor_id = actor; entity_id = cid; new_mode = human_control },
        claim actor org cid conv.assigned_user_id
            (write_conversation cid (set_mode human_control) db),
      )
unfolding takeover
takeover-found actor org cid db conv e = rw (e, takeover) refl

return_to_ai-found :
    (actor org cid : ℕ) (db : Db) (conv : Conversation)
    → get_conversation cid org db ≡ some conv
    → return_to_ai actor org cid db
      ≡ some (
        record { actor_id = actor; entity_id = cid; new_mode = ai_control },
        write_conversation cid (set_mode ai_control) db,
      )
unfolding return_to_ai
return_to_ai-found actor org cid db conv e = rw (e, return_to_ai) refl

-- A conversation of the organisation is taken over: the answer has the entry of the human mode, and
-- the row is in the human mode, with its assignee, or with the actor where it had none, and
-- otherwise as it was. Given back, the row is in the mode of the support agent and otherwise as it
-- was.
pub takeover_lem :
    (actor org cid : ℕ) (db : Db) (conv : Conversation)
    → get_conversation cid org db ≡ some conv
    → ((entry : ControlEntry) × (db' : Db) × (takeover actor org cid db ≡ some (entry, db'))
        × (entry.new_mode ≡ human_control)
        × (db'.conversations cid
            ≡ some (record conv {
              ai_control_mode = human_control;
              assigned_user_id = or_actor conv.assigned_user_id actor;
            })))
      × ((entry : ControlEntry) × (db' : Db) × (return_to_ai actor org cid db ≡ some (entry, db'))
          × (entry.new_mode ≡ ai_control)
          × (db'.conversations cid ≡ some (record conv { ai_control_mode = ai_control })))
takeover_lem actor org cid db conv e =
    let stored = (get_conversation-row cid org db conv e).0 in
    (
      (
        _,
        _,
        takeover-found actor org cid db conv e,
        refl,
        claim-row actor org cid conv.assigned_user_id
            (write_conversation cid (set_mode human_control) db) (set_mode human_control conv)
            (get-after-mode cid org human_control db conv e) refl,
      ),
      (
        _,
        _,
        return_to_ai-found actor org cid db conv e,
        refl,
        write_self cid (set_mode ai_control) db conv stored,
      ),
    )
