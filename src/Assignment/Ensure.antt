-- ===== src/Assignment/Ensure.antt =====
-- `ensure_assignee_for_team` as a whole.
use ai_customer_support_plat.Prelude.{
  ℕ, ◌≡◌, ◌≢◌, ◌⊎◌, ◌∙◌, inl, inr, refl, sym, ap, subst, Bool, true, false, Option, none, some,
  arith, Bool-cases, Option-cases,
}
use ai_customer_support_plat.Domain.{Conversation, Team, Ticket, Db}
use ai_customer_support_plat.Assignment.Rotation.{get_team, find_available_agent}
use ai_customer_support_plat.Assignment.Writes.{
  plus, minus, publish_assigned, write_conversation, set_user, set_team, get_conversation,
  is_synced, sync_tickets,
}
use ai_customer_support_plat.Assignment.Service.{
  take_next, release, keeps, choose_assignee, settle, own_team, ensure_for, ticket_id,
  ensure_assignee_for_team,
}
use ai_customer_support_plat.Assignment.Frame.{write-SameRoster}
use ai_customer_support_plat.Assignment.Keeping.{IsKept, IsDropped, keeps-IsKept, keeps-IsDropped}
use ai_customer_support_plat.Assignment.Team.{
  IsAssigned, IsNext, AreMirrored, adjust-conversations, publish-conversations, write_self,
  write-other, choose_assignee-post, sync_rows-AreMirrored, get_conversation-row, IsNext-SameRoster,
}

-- Who the conversation goes to: the old assignee exactly when it is kept, else an online member, or
-- nobody if no member is online.
abbrev pub IsFair : Bool → ℕ → Option ℕ → Db → Option ℕ → Type 0
IsFair flag tid old db r =
    (IsKept flag old tid db × (r ≡ old)) ⊎ (IsDropped flag old tid db × IsNext tid db r)

settle-post :
    (cid org tid : ℕ) (primary : Option ℕ) (linked : Bool) (r : Option ℕ) (db : Db)
    → IsAssigned cid (some tid) r db.conversations
    → let (r', db') = settle cid org tid primary linked (r, db) in
      (r' ≡ r)
      × IsAssigned cid (some tid) r db'.conversations
      × AreMirrored (is_synced cid primary linked) (some tid) r db'.tickets
unfolding settle sync_tickets
settle-post cid org tid primary linked r db (c, e, t, u) = (
  refl,
  (c, ap (λ m. m cid) (publish-conversations cid org db) ∙ e, t, u),
  sync_rows-AreMirrored cid primary linked (some tid) r (publish_assigned cid org db).tickets,
)

own_team-true :
    (org : ℕ) (t : Team) (o : Option Team)
    → o ≡ some t
    → t.organization_id ≡ org
    → own_team org o ≡ true
own_team-true org t o e h = ground arith

-- The outcome of the call on a conversation whose assignee was `old`: it answers with the assignee,
-- kept or next; the conversation has the team and that assignee, and so has each ticket that is
-- synced.
pub record IsEnsured (cid tid : ℕ) (primary : Option ℕ) (linked flag : Bool) (old : Option ℕ)
    (db : Db) (r : Option ℕ) (db' : Db) : Type 0 where
  pub row : IsAssigned cid (some tid) r db'.conversations
  pub fair : IsFair flag tid old db r
  pub mirrored : AreMirrored (is_synced cid primary linked) (some tid) r db'.tickets

module _ (org tid cid : ℕ) (primary : Option ℕ) (linked flag : Bool) (db : Db) (conv : Conversation)
    (team : Team) (here : get_conversation cid org db ≡ some conv)
    (found : get_team tid db.teams ≡ some team) (own : team.organization_id ≡ org) where
  ensure_for-steps :
      ensure_for org tid cid primary linked flag db
      ≡ settle cid org tid primary linked (
          choose_assignee cid tid
            (keeps flag conv.assigned_user_id tid db)
            conv.assigned_user_id
            (write_conversation cid (set_team (some tid)) db))
  unfolding ensure_for
  ensure_for-steps =
      rw (here, ensure_for) (rw (own_team-true org team (get_team tid db.teams) found own))

  pub ensure_for-IsEnsured :
      let (r, db') = ensure_for org tid cid primary linked flag db in
      IsEnsured cid tid primary linked flag conv.assigned_user_id db r db'
  unfolding choose_assignee settle
  ensure_for-IsEnsured =
      let old = conv.assigned_user_id in
      let keep = keeps flag old tid db in
      let db1 = write_conversation cid (set_team (some tid)) db in
      let s = write-SameRoster cid (set_team (some tid)) db (λ x. refl) in
      let (stored, _) = get_conversation-row cid org db conv here in
      let row : IsAssigned cid (some tid) old db1.conversations = (
        set_team (some tid) conv,
        write_self cid (set_team (some tid)) db conv stored,
        refl,
        refl,
      ) in
      let (row', chosen) =
        choose_assignee-post cid tid old team db1 row (ap (get_team tid) s.teams ∙ found) keep in
      let fair : IsFair flag tid old db (choose_assignee cid tid keep old db1).0 = elim chosen [
        | inl (k, e) ↦ inl (keeps-IsKept flag old tid db k, e)
        | inr (k, n) ↦ inr (keeps-IsDropped flag old tid db k, IsNext-SameRoster tid _ db db1 s n)
      ] in
      let (r, db2) = choose_assignee cid tid keep old db1 in
      let (same, row'', mirrored) = settle-post cid org tid primary linked r db2 row' in
      subst (λ (o : Option ℕ × Db). IsEnsured cid tid primary linked flag old db o.0 o.1)
        (sym ensure_for-steps) (record { row = row''; fair = fair; mirrored = mirrored })

-- For a conversation and a team of the organisation, `ensure_assignee_for_team` puts the conversation
-- on the team and answers with its assignee: the old one if `keep_assignee_if_member` is set and that
-- user is a member of the team; otherwise an online member, or nobody if no member is online. Every
-- synced ticket has the same team and user.
pub ensure_assignee_for_team-IsEnsured :
    (org tid cid : ℕ) (ticket : Option Ticket) (linked flag : Bool) (db : Db) (conv : Conversation)
    (team : Team)
    → get_conversation cid org db ≡ some conv
    → get_team tid db.teams ≡ some team
    → team.organization_id ≡ org
    → let (r, db') = ensure_assignee_for_team org tid (some cid) ticket linked flag db in
      IsEnsured cid tid (ticket_id ticket) linked flag conv.assigned_user_id db r db'
unfolding ensure_assignee_for_team
ensure_assignee_for_team-IsEnsured org tid cid none linked flag db conv team h f o =
    ensure_for-IsEnsured org tid cid none linked flag db conv team h f o
ensure_assignee_for_team-IsEnsured org tid cid (some t) linked flag db conv team h f o =
    ensure_for-IsEnsured org tid cid (some t.id) linked flag db conv team h f o

release-other :
    (cid j : ℕ) (old : Option ℕ) (db : Db)
    → j ≢ cid
    → (release cid old db).conversations j ≡ db.conversations j
unfolding release
release-other cid j none db h = refl
release-other cid j (some u) db h =
    ap (λ m. m j)
      (adjust-conversations (some u) (minus 1) (write_conversation cid (set_user none) db))
    ∙ write-other cid j (set_user none) db h

take_next-other :
    (cid tid j : ℕ) (r : Option ℕ) (db : Db)
    → j ≢ cid
    → (take_next cid tid r db).1.conversations j ≡ db.conversations j
unfolding take_next
take_next-other cid tid j none db h = write-other cid j (set_user none) db h
take_next-other cid tid j (some a) db h =
    ap (λ m. m j)
      (adjust-conversations (some a) (plus 1) (write_conversation cid (set_user (some a)) db))
    ∙ write-other cid j (set_user (some a)) db h

choose_assignee-other :
    (cid tid j : ℕ) (keep : Bool) (old : Option ℕ) (db : Db)
    → j ≢ cid
    → (choose_assignee cid tid keep old db).1.conversations j ≡ db.conversations j
unfolding choose_assignee
choose_assignee-other cid tid j true old db h = refl
choose_assignee-other cid tid j false old db h =
    let db1 = release cid old db in
    take_next-other cid tid j (find_available_agent false false tid db1) db1 h
    ∙ release-other cid j old db h

-- Whatever `ensure_for` does, it changes no conversation but its own.
pub ensure_for-other :
    (org tid cid j : ℕ) (primary : Option ℕ) (linked flag : Bool) (db : Db)
    → j ≢ cid
    → (ensure_for org tid cid primary linked flag db).1.conversations j ≡ db.conversations j
unfolding ensure_for settle sync_tickets
ensure_for-other org tid cid j primary linked flag db h =
    elim (Option-cases (get_conversation cid org db)) [
      | inl missing ↦ rw (missing, ensure_for)
      | inr (conv, e) ↦ elim (Bool-cases (own_team org (get_team tid db.teams))) [
        | inl own ↦
            let db1 = write_conversation cid (set_team (some tid)) db in
            let (r, db2) =
              choose_assignee cid tid (keeps flag conv.assigned_user_id tid db)
                conv.assigned_user_id db1 in
            rw (e, ensure_for)
              (rw own (
                ap (λ m. m j) (publish-conversations cid org db2)
                ∙ choose_assignee-other cid tid j (keeps flag conv.assigned_user_id tid db)
                    conv.assigned_user_id db1 h
                ∙ write-other cid j (set_team (some tid)) db h))
        | inr foreign ↦ rw (e, ensure_for) (rw foreign)
      ]
    ]
