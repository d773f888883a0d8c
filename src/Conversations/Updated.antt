-- ===== src/Conversations/Updated.antt =====
-- What an update of a conversation does to its row, to the counts of the agents and to the events.
use ai_customer_support_plat.Prelude.{
  ℕ, ◌≡◌, ◌∙◌, ◌⊎◌, refl, ap, inl, inr, Bool, Bool-cases, raises, true, false, not, ◌&&◌, ◌||◌,
  List, [], ◌∷◌, ◌++◌, Option, none, some, String, opt_eq, is_some, arith, Attempt, returns, Table,
}
use ai_customer_support_plat.Domain.{
  Conversation, AgentAvailability, conversation_written, Db, DomainEvent,
}
use ai_customer_support_plat.Auth.Permissions.{has, conversations_assign}
use ai_customer_support_plat.Assignment.Writes.{plus, get_conversation, write_conversation}
use ai_customer_support_plat.Assignment.Team.{write_self, get_conversation-row}
use ai_customer_support_plat.Assignment.Transfer.{recount}
use ai_customer_support_plat.Hours.Calendar.{BusinessHours}
use ai_customer_support_plat.Conversations.Update.{
  ConversationUpdate, UpdateEntry, UpdateError, is_closed, set_fields, flushed, has_null,
  null_value, row_refused, is_team_changing, moved_team, recount_users, assign_fields, event_name,
  restart_timers, follow_up, update_conversation,
}
use ai_customer_support_plat.Conversations.Counts.{
  is_counted, follow, recounted, switched, follow_lem, recount_users-availability,
}
use ai_customer_support_plat.Conversations.Effects.{
  recount_users-conversations, recount_users-events, synced-IsKept, restart-IsKept,
  close_or_reopen-counts, close_or_reopen-rest, twice,
}

-- What an update leaves: the row is as `new`, one event with its values is published, and every
-- agent's count follows the conversation.
abbrev pub IsUpdated :
    ℕ → ℕ → Conversation → Conversation → Db → Attempt UpdateError (List UpdateEntry × Db) → Type 0
IsUpdated org cid conv new db after =
    (entries : List UpdateEntry) × (db' : Db) × (after ≡ returns (entries, db'))
    × (db'.conversations cid ≡ some new)
    × ((v : ℕ)
        → db'.availability v ≡ follow (is_counted conv v) (is_counted new v) (db.availability v))
    × (db'.events
        ≡ db.events
          ++ conversation_written (event_name conv new) org cid new.status new.priority
              new.assigned_user_id new.assigned_team_id
            ∷ [])

module _ (to_local to_utc : ℕ → ℕ) (hours : Option BusinessHours) (now : ℕ) where
  module _ (accepts : ℕ → Conversation → Bool) (actor org cid : ℕ) (permissions : List String)
      (body : ConversationUpdate) (db : Db) (conv : Conversation)
      (found : get_conversation cid org db ≡ some conv)
      (allowed : has conversations_assign permissions ≡ true)
      (alone : moved_team body conv ≡ none) where
    -- The row with the fields of the body.
    abbrev pub updated : Conversation
    updated = set_fields body body.assigned_team_id conv

    abbrev pub after : Attempt UpdateError (List UpdateEntry × Db)
    after = update_conversation to_local to_utc hours now accepts actor org permissions cid body db

    abbrev written : Db
    written = write_conversation cid (set_fields body body.assigned_team_id) db

    assigned_lem :
        ((assign_fields org cid body conv db).conversations cid ≡ some updated)
        × ((v : ℕ)
            → (assign_fields org cid body conv db).availability v
              ≡ recounted conv.assigned_user_id updated.assigned_user_id v (db.availability v))
        × ((assign_fields org cid body conv db).events ≡ db.events)
    unfolding assign_fields write_conversation
    assigned_lem =
        let (stored, own) = get_conversation-row cid org db conv found in
        let new = updated.assigned_user_id in
        let db2 = recount_users conv.assigned_user_id new written in
        let (kc, ka, ke) =
          synced-IsKept (is_team_changing body conv || is_some body.assigned_user_id) cid
            updated.assigned_team_id new db2 in
        let same : (written.availability ≡ db.availability) × (written.events ≡ db.events) =
          rw (stored, write_conversation) (refl, refl) in
        rw (alone, assign_fields)
          (
            ap (λ (t : Table Conversation). t cid)
                  (kc ∙ recount_users-conversations conv.assigned_user_id new written)
                ∙ write_self cid (set_fields body body.assigned_team_id) db conv stored,
            λ v.
                ka v
                ∙ (recount_users-availability conv.assigned_user_id new v written
                    ∙ ap
                        (λ (t : Table AgentAvailability).
                          recounted conv.assigned_user_id new v (t v))
                        same.0),
            ke ∙ (recount_users-events conv.assigned_user_id new written ∙ same.1),
          )

    guarded :
        ((is_some body.assigned_user_id || is_some body.assigned_team_id)
          && not (has conversations_assign permissions))
        ≡ false
    guarded = ground arith

    same_row : flushed body conv ≡ updated
    same_row = rw (alone, flushed) refl

    -- The answer, and the database it leaves.
    pub update_conversation-returns :
        has_null body ≡ false
        → accepts cid updated ≡ true
        → (entries : List UpdateEntry) × (db' : Db) × (after ≡ returns (entries, db'))
          × (db'.conversations cid ≡ some updated)
          × ((v : ℕ)
              → db'.availability v
                ≡ switched
                    (is_closed conv.status)
                    (is_closed updated.status)
                    updated.assigned_user_id
                    v
                    (recounted conv.assigned_user_id updated.assigned_user_id v
                      (db.availability v)))
          × (db'.events
              ≡ db.events
                ++ conversation_written
                    (event_name conv updated)
                    org
                    cid
                    updated.status
                    updated.priority
                    updated.assigned_user_id
                    updated.assigned_team_id
                  ∷ [])
    unfolding update_conversation follow_up
    update_conversation-returns whole taken =
        let (row, counts, events) = assigned_lem in
        let db1 = assign_fields org cid body conv db in
        let db2 = restart_timers to_local to_utc hours now org cid conv updated db1 in
        let (rc, ra, re) = restart-IsKept to_local to_utc hours now org cid conv updated db1 in
        let (cc', ce) = close_or_reopen-rest to_local to_utc hours now cid conv updated db2 in
        (
          (follow_up to_local to_utc hours now actor org cid conv updated db1).0,
          (follow_up to_local to_utc hours now actor org cid conv updated db1).1,
          rw (found, update_conversation)
              (rw guarded (rw whole (rw same_row (rw taken (rw row refl))))),
          ap (λ (t : Table Conversation). t cid) (cc' ∙ rc) ∙ row,
          λ v.
              close_or_reopen-counts to_local to_utc hours now cid conv updated db2 v
              ∙ ap
                  (switched (is_closed conv.status) (is_closed updated.status)
                    updated.assigned_user_id v)
                  (ra v ∙ counts v),
          ap
              (λ (es : List DomainEvent).
                es
                ++ conversation_written (event_name conv updated) org cid updated.status
                    updated.priority updated.assigned_user_id updated.assigned_team_id
                  ∷ [])
              (ce ∙ (re ∙ events)),
        )

    updates :
        (is_closed conv.status ≡ false) ⊎ (updated.assigned_user_id ≡ conv.assigned_user_id)
        → has_null body ≡ false
        → accepts cid updated ≡ true
        → IsUpdated org cid conv updated db after
    updates h whole taken =
        let (entries, db', answer, row, counts, events) = update_conversation-returns whole taken in
        (
          entries,
          db',
          answer,
          row,
          λ v.
              counts v
              ∙ follow_lem (is_closed conv.status) (is_closed updated.status) conv.assigned_user_id
                  updated.assigned_user_id v (db.availability v) h,
          events,
        )

    -- An actor who may assign updates a conversation of the organisation, otherwise than by its team
    -- alone, and does not give a closed conversation another assignee. The call raises if the status
    -- or the priority is given as null, and if the database refuses the row. Else it returns, the row
    -- has the fields of the body, one event with the new values is published, and every agent's count
    -- follows the conversation: lowered by one if it was open and assigned to the agent and no longer
    -- is, raised by one if it now is and was not, else as it was.
    pub update_conversation-counts :
        (is_closed conv.status ≡ false) ⊎ (updated.assigned_user_id ≡ conv.assigned_user_id)
        → ((has_null body ≡ true) × (after ≡ raises null_value))
          ⊎ (((has_null body ≡ false)
                × (accepts cid updated ≡ false)
                × (after ≡ raises row_refused))
              ⊎ ((has_null body ≡ false)
                  × (accepts cid updated ≡ true)
                  × IsUpdated org cid conv updated db after))
    unfolding update_conversation
    update_conversation-counts h = elim (Bool-cases (has_null body)) [
      | inl null ↦ inl (null, rw (found, update_conversation) (rw guarded (rw null refl)))
      | inr whole ↦ elim (Bool-cases (accepts cid updated)) [
        | inl taken ↦ inr (inr (whole, taken, updates h whole taken))
        | inr refused ↦ inr (
            inl (
              whole,
              refused,
              rw (found, update_conversation)
                  (rw guarded (rw whole (rw same_row (rw refused refl)))),
            ))
      ]
    ]

    -- An actor who may assign reopens a closed conversation and gives it to another agent in one
    -- update, with no null status or priority and a row that the database accepts: the call returns,
    -- and the count of that agent goes up by two.
    pub update_conversation-counts_twice :
        (u : ℕ)
        → has_null body ≡ false
        → accepts cid updated ≡ true
        → is_closed conv.status ≡ true
        → is_closed updated.status ≡ false
        → updated.assigned_user_id ≡ some u
        → opt_eq conv.assigned_user_id (some u) ≡ false
        → (entries : List UpdateEntry) × (db' : Db) × (after ≡ returns (entries, db'))
          × (db'.availability u ≡ recount (plus 2) (db.availability u))
    update_conversation-counts_twice u whole taken was is e other =
        let (entries, db', answer, row, counts, events) = update_conversation-returns whole taken in
        let mine : opt_eq (some u) (some u) ≡ true = ground arith in
        (entries, db', answer, counts u ∙ rw (was, is, e, other, mine) (twice (db.availability u)))
