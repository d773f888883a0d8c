-- ===== src/Assignment/Transfer.antt =====
-- `assign_user`: both outcomes, with the counts of the agents.
use ai_customer_support_plat.Prelude.{
  ℕ, ◌+◌, ◌≡◌, ◌≢◌, ◌∙◌, ◌⊎◌, inl, inr, refl, ap, Bool, true, false, not, ◌&&◌, [], ◌∷◌, ◌++◌,
  Option, none, some, Table, put, ◌==◌, ==_iff, opt_eq, opt_eq_iff, if◌then◌else◌, arith,
  Bool-cases, Option-cases,
}
use ai_customer_support_plat.Domain.{Conversation, AgentAvailability, Db, conversation_assigned}
use ai_customer_support_plat.Assignment.Writes.{
  Delta, plus, minus, apply_delta, is_zero, adjust_row, adjust_active_count, publish_assigned,
  write_conversation, set_user, get_conversation, row_refuses,
}
use ai_customer_support_plat.Assignment.Service.{move_user, assign_user}
use ai_customer_support_plat.Assignment.Team.{
  IsAssigned, adjust-conversations, publish-conversations, write_self, get_conversation-row,
}

-- An availability row with its count changed.
abbrev pub recount : Delta → Option AgentAvailability → Option AgentAvailability
recount d none = none
recount d (some a) =
    some (record a { active_conversation_count = apply_delta d a.active_conversation_count })

adjust_row-lookup :
    (u v : ℕ) (d : Delta) (o : Option AgentAvailability) (rows : Table AgentAvailability)
    → rows u ≡ o
    → adjust_row u d o rows v ≡ (if v == u then recount d (rows v) else rows v)
unfolding put
adjust_row-lookup u v d none rows e = elim (Bool-cases (v == u)) [
  | inl same ↦ rw (same, (==_iff v u).0 same, e)
  | inr other ↦ rw other
]
adjust_row-lookup u v d (some a) rows e = elim (Bool-cases (v == u)) [
  | inl same ↦ rw (same, (==_iff v u).0 same, e)
  | inr other ↦ rw other
]

pub adjust-lookup :
    (u v : ℕ) (d : Delta) (db : Db)
    → is_zero d ≡ false
    → (adjust_active_count (some u) d db).availability v
      ≡ (if v == u then recount d (db.availability v) else db.availability v)
unfolding adjust_active_count
adjust-lookup u v d db h = rw h (adjust_row-lookup u v d (db.availability u) db.availability refl)

==-comm : (a b : ℕ) → (a == b) ≡ (b == a)
==-comm a b = ground arith

pub adjust-lookup_opt :
    (o : Option ℕ) (v : ℕ) (d : Delta) (db : Db)
    → is_zero d ≡ false
    → (adjust_active_count o d db).availability v
      ≡ (if opt_eq o (some v) then recount d (db.availability v) else db.availability v)
unfolding adjust_active_count
adjust-lookup_opt none v d db h = refl
adjust-lookup_opt (some u) v d db h =
    adjust-lookup u v d db h
    ∙ ap (λ b. if b then recount d (db.availability v) else db.availability v) (==-comm v u)

-- What a transfer to `u` has done: the conversation is the agent's, the old assignee's count is one
-- lower and not below zero, the new one's is one higher, and all other rows are as they were.
pub record IsTransfer (cid u : ℕ) (conv : Conversation) (db db' : Db) : Type 0 where
  pub row : IsAssigned cid conv.assigned_team_id (some u) db'.conversations
  pub counts :
      (v : ℕ)
      → db'.availability v ≡ (
          if v == u
          then recount (plus 1) (db.availability v)
          else if opt_eq conv.assigned_user_id (some v)
          then recount (minus 1) (db.availability v)
          else db.availability v)
  pub announced :
      db'.events
      ≡ db.events
        ++ conversation_assigned conv.organization_id cid
            (some u)
            conv.assigned_team_id
            (db.depth + 1)
          ∷ []

adjust-events :
    (o : Option ℕ) (d : Delta) (db : Db)
    → ((adjust_active_count o d db).events ≡ db.events)
      × ((adjust_active_count o d db).depth ≡ db.depth)
unfolding adjust_active_count
adjust-events none d db = (refl, refl)
adjust-events (some u) d db = ground arith

write-rest :
    (cid : ℕ) (f : Conversation → Conversation) (db : Db)
    → ((write_conversation cid f db).events ≡ db.events)
      × ((write_conversation cid f db).depth ≡ db.depth)
      × ((write_conversation cid f db).availability ≡ db.availability)
unfolding write_conversation
write-rest cid f db = ground arith

publish-rest :
    (cid org : ℕ) (db : Db) (c : Conversation)
    → db.conversations cid ≡ some c
    → ((publish_assigned cid org db).events
        ≡ db.events
          ++ conversation_assigned org cid c.assigned_user_id c.assigned_team_id (db.depth + 1)
            ∷ [])
      × ((publish_assigned cid org db).availability ≡ db.availability)
unfolding publish_assigned
publish-rest cid org db c e = rw (e, publish_assigned) (refl, refl)

both-counts :
    (u v : ℕ) (old : Option ℕ) (o : Option AgentAvailability)
    → old ≢ some u
    → (if v == u
        then recount (plus 1) (if opt_eq old (some v) then recount (minus 1) o else o)
        else (if opt_eq old (some v) then recount (minus 1) o else o))
      ≡ (if v == u
          then recount (plus 1) o
          else if opt_eq old (some v)
          then recount (minus 1) o
          else o)
both-counts u v none o h = ground arith
both-counts u v (some w) o h = elim (Bool-cases (v == u)) [
  | inl same ↦ elim (Bool-cases (w == v)) [
    | inl again ↦ absurd (h (ap some ((==_iff w v).0 again ∙ (==_iff v u).0 same)))
    | inr other ↦ rw (same, other)
  ]
  | inr other ↦ rw other
]

move_user-IsTransfer :
    (cid org u : ℕ) (conv : Conversation) (db : Db)
    → db.conversations cid ≡ some conv
    → conv.organization_id ≡ org
    → conv.assigned_user_id ≢ some u
    → IsTransfer cid u conv db (move_user cid org conv.assigned_user_id u db)
unfolding move_user
move_user-IsTransfer cid org u conv db e o ne =
    let old = conv.assigned_user_id in
    let db1 = write_conversation cid (set_user (some u)) db in
    let db2 = adjust_active_count old (minus 1) db1 in
    let db3 = adjust_active_count (some u) (plus 1) db2 in
    let stored =
      ap (λ m. m cid)
        (adjust-conversations (some u) (plus 1) db2 ∙ adjust-conversations old (minus 1) db1)
      ∙ write_self cid (set_user (some u)) db conv e in
    let (said, rows) = publish-rest cid org db3 (set_user (some u) conv) stored in
    let (ev3, dp3) = adjust-events (some u) (plus 1) db2 in
    let (ev2, dp2) = adjust-events old (minus 1) db1 in
    let (ev1, dp1, av1) = write-rest cid (set_user (some u)) db in
    record {
      row = (
        set_user (some u) conv,
        ap (λ m. m cid) (publish-conversations cid org db3) ∙ stored,
        refl,
        refl,
      );
      counts = λ v.
          ap (λ m. m v) rows
          ∙ adjust-lookup u v (plus 1) db2 refl
          ∙ ap (λ a. if v == u then recount (plus 1) a else a)
              (adjust-lookup_opt old v (minus 1) db1 refl
                ∙ ap (λ m. if opt_eq old (some v) then recount (minus 1) (m v) else m v) av1)
          ∙ both-counts u v old (db.availability v) ne;
      announced = said ∙ (cc);
    }

module _ (cid org u : ℕ) (off aw skip : Bool) (db : Db) where
  -- `assign_user` either answers no and changes nothing, which it does exactly when the conversation
  -- is not the organisation's, is the user's already, or the user's availability is checked and
  -- refused; or it answers yes and transfers the conversation with both counts and one event.
  pub assign_user-outcomes :
      (((assign_user cid org u off aw skip db ≡ (false, db)))
        × ((get_conversation cid org db ≡ none)
            ⊎ ((conv : Conversation) × (get_conversation cid org db ≡ some conv)
                × ((conv.assigned_user_id ≡ some u)
                    ⊎ ((skip ≡ false) × (row_refuses off aw (db.availability u) ≡ true))))))
      ⊎ ((conv : Conversation) × ((assign_user cid org u off aw skip db).0 ≡ true)
          × (get_conversation cid org db ≡ some conv)
          × (conv.assigned_user_id ≢ some u)
          × ((skip ≡ true) ⊎ (row_refuses off aw (db.availability u) ≡ false))
          × IsTransfer cid u conv db (assign_user cid org u off aw skip db).1)
  unfolding assign_user
  assign_user-outcomes = elim (Option-cases (get_conversation cid org db)) [
    | inl missing ↦ inl (rw (missing, assign_user), inl missing)
    | inr (conv, e) ↦ elim (Bool-cases (opt_eq conv.assigned_user_id (some u))) [
      | inl same ↦ inl (
        rw (e, assign_user) (rw same),
        inr (conv, e, inl ((opt_eq_iff conv.assigned_user_id (some u)).0 same)),
      )
      | inr other ↦ elim (Bool-cases (not skip && row_refuses off aw (db.availability u))) [
        | inl refused ↦ inl (
          rw (e, assign_user) (rw (other, refused)),
          inr (conv, e, inr (ground arith, ground arith)),
        )
        | inr accepted ↦
            let (stored, own) = get_conversation-row cid org db conv e in
            let ne : conv.assigned_user_id ≢ some u =
              λ p. cc ((opt_eq_iff conv.assigned_user_id (some u)).1 p) in
            inr (
              conv,
              rw (e, assign_user) (rw (other, accepted)),
              e,
              ne,
              ground arith,
              rw (e, assign_user)
                  (rw (other, accepted) (move_user-IsTransfer cid org u conv db stored own ne)),
            )
      ]
    ]
  ]
