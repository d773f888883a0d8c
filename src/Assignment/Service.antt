-- ===== src/Assignment/Service.antt =====
-- backend/app/modules/assignment/application/service.py: `AssignmentService`. Each method takes the
-- database to the database, with the value that it returns. What the event handlers do in their
-- own sessions is not part of it: a published event is appended to `events`.
use ai_customer_support_plat.Prelude.{
  ℕ, Bool, true, false, not, ◌&&◌, List, [], ◌∷◌, Option, none, some, Text, ◌==◌, opt_eq,
  if◌then◌else◌,
}
use ai_customer_support_plat.Domain.{Conversation, Team, Ticket, Db}
use ai_customer_support_plat.Assignment.Rotation.{get_team, find_available_agent}
use ai_customer_support_plat.Assignment.Writes.{
  plus, minus, adjust_active_count, publish_assigned, write_conversation, set_user, set_team,
  remember, get_conversation, user_on_team, sync_tickets, row_refuses,
}

unfoldable pub move_user : ℕ → ℕ → Option ℕ → ℕ → Db → Db
move_user cid org old u db =
    let db1 = write_conversation cid (set_user (some u)) db in
    let db2 = adjust_active_count old (minus 1) db1 in
    let db3 = adjust_active_count (some u) (plus 1) db2 in publish_assigned cid org db3

unfoldable pub assign_user : ℕ → ℕ → ℕ → Bool → Bool → Bool → Db → Bool × Db
assign_user cid org u off aw skip db = elim (get_conversation cid org db) [
  | none ↦ (false, db)
  | some conv ↦
      if opt_eq conv.assigned_user_id (some u)
      then (false, db)
      else if not skip && row_refuses off aw (db.availability u)
      then (false, db)
      else (true, move_user cid org conv.assigned_user_id u db)
]

-- The part of `ensure_assignee_for_team` that looks for a member, after the old assignee is gone.
unfoldable pub take_next : ℕ → ℕ → Option ℕ → Db → Option ℕ × Db
take_next cid tid none db = (none, write_conversation cid (set_user none) db)
take_next cid tid (some a) db =
    let db1 = write_conversation cid (set_user (some a)) db in
    (some a, remember tid a (adjust_active_count (some a) (plus 1) db1))

-- `if old_user: ...`
unfoldable pub release : ℕ → Option ℕ → Db → Db
release cid none db = db
release cid (some u) db =
    adjust_active_count (some u) (minus 1) (write_conversation cid (set_user none) db)

abbrev pub keeps : Bool → Option ℕ → ℕ → Db → Bool
keeps flag none tid db = false
keeps flag (some u) tid db = flag && user_on_team u tid db

unfoldable pub choose_assignee : ℕ → ℕ → Bool → Option ℕ → Db → Option ℕ × Db
choose_assignee cid tid keep old db =
    if keep
    then (old, db)
    else (let db1 = release cid old db in
        take_next cid tid (find_available_agent false false tid db1) db1)

unfoldable pub settle : ℕ → ℕ → ℕ → Option ℕ → Bool → Option ℕ × Db → Option ℕ × Db
settle cid org tid primary linked (assignee, db) =
    (assignee, sync_tickets cid (some tid) assignee primary linked (publish_assigned cid org db))

abbrev pub own_team : ℕ → Option Team → Bool
own_team org none = false
own_team org (some t) = t.organization_id == org

-- `ensure_assignee_for_team` for a conversation id that is given.
unfoldable pub ensure_for : ℕ → ℕ → ℕ → Option ℕ → Bool → Bool → Db → Option ℕ × Db
ensure_for org tid cid primary linked flag db = elim (get_conversation cid org db) [
  | none ↦ (none, db)
  | some conv ↦
      if not (own_team org (get_team tid db.teams))
      then (none, db)
      else (let old = conv.assigned_user_id in
          let keep = keeps flag old tid db in
          let db1 = write_conversation cid (set_team (some tid)) db in
          settle cid org tid primary linked (choose_assignee cid tid keep old db1))
]

abbrev pub target_conversation : Option ℕ → Option Ticket → Option ℕ
target_conversation none (some t) = some t.conversation_id
target_conversation c _ = c

abbrev pub ticket_id : Option Ticket → Option ℕ
ticket_id none = none
ticket_id (some t) = some t.id

unfoldable pub ensure_assignee_for_team :
    ℕ → ℕ → Option ℕ → Option Ticket → Bool → Bool → Db → Option ℕ × Db
ensure_assignee_for_team org tid conversation ticket linked flag db =
    elim (target_conversation conversation ticket) [
      | none ↦ (none, db)
      | some cid ↦ ensure_for org tid cid (ticket_id ticket) linked flag db
    ]

unfoldable pub assign_team : ℕ → ℕ → ℕ → Db → Bool × Db
assign_team cid org tid db = elim (get_conversation cid org db) [
  | none ↦ (false, db)
  | some conv ↦
      if opt_eq conv.assigned_team_id (some tid)
      then (false, db)
      else (true, (ensure_assignee_for_team org tid (some cid) none true true db).1)
]

-- `team_id` of a call is an id or a name, and `name_matches` is the database's `ILIKE` of a team's
-- name with the text of that reference.
pub data TeamRef : Type 0 where
  by_id : ℕ → TeamRef
  by_name : Text → TeamRef

abbrev pub get_by_ref : TeamRef → List Team → Option Team
get_by_ref (by_id tid) ts = get_team tid ts
get_by_ref (by_name n) ts = none

module _ (name_matches : Text → TeamRef → Bool) where
  -- `select(Team).where(Team.organization_id == ..., Team.name.ilike(...))`
  unfoldable pub find_named : ℕ → TeamRef → List Team → Option Team
  find_named org r [] = none
  find_named org r (t ∷ ts) =
      if t.organization_id == org && name_matches t.name r then some t else find_named org r ts

  unfoldable pub assign_team_by_name : ℕ → ℕ → Text → Db → Bool × Db
  assign_team_by_name cid org name db = elim (find_named org (by_name name) db.teams) [
    | none ↦ (false, db)
    | some team ↦ assign_team cid org team.id db
  ]

  unfoldable pub resolve_team : ℕ → TeamRef → Db → Option Team
  resolve_team org r db = elim (get_by_ref r db.teams) [
    | none ↦ find_named org r db.teams
    | some t ↦ some t
  ]

  unfoldable pub round_robin_in : ℕ → ℕ → ℕ → Bool → Bool → Option ℕ → Db → Option ℕ × Db
  round_robin_in cid org tid off aw none db =
      (none, publish_assigned cid org (write_conversation cid (set_team (some tid)) db))
  round_robin_in cid org tid off aw (some a) db =
      let db1 = (assign_user cid org a off aw false db).1 in
      (some a, remember tid a (write_conversation cid (set_team (some tid)) db1))

  unfoldable pub assign_round_robin : ℕ → ℕ → TeamRef → Bool → Bool → Db → Option ℕ × Db
  assign_round_robin cid org r off aw db = elim (get_conversation cid org db) [
    | none ↦ (none, db)
    | some conv ↦ elim (resolve_team org r db) [
      | none ↦ (none, db)
      | some team ↦
          round_robin_in cid org team.id off aw (find_available_agent off aw team.id db) db
    ]
  ]

  -- `team_id or conv.assigned_team_id`
  abbrev or_current : Option TeamRef → Option ℕ → Option TeamRef
  or_current (some r) c = some r
  or_current none none = none
  or_current none (some t) = some (by_id t)

  unfoldable pub auto_assign_if_needed : ℕ → ℕ → Option TeamRef → Db → Option ℕ × Db
  auto_assign_if_needed cid org r db = elim (get_conversation cid org db) [
    | none ↦ (none, db)
    | some conv ↦ elim conv.assigned_user_id [
      | some u ↦ (some u, db)
      | none ↦ elim (or_current r conv.assigned_team_id) [
        | none ↦ (none, db)
        | some t ↦ assign_round_robin cid org t false false db
      ]
    ]
  ]

-- `mirror_assignment_to_ticket`
unfoldable pub mirror_assignment : ℕ → Conversation → List Ticket → List Ticket
mirror_assignment tid conv [] = []
mirror_assignment tid conv (t ∷ ts) =
    (if t.id == tid
      then record t {
        assigned_user_id = conv.assigned_user_id;
        assigned_team_id = elim conv.assigned_team_id [
          | none ↦ t.assigned_team_id
          | some team ↦ some team
        ];
      }
      else t)
    ∷ mirror_assignment tid conv ts

unfoldable pub sync_manual_assignment : ℕ → ℕ → Option ℕ → Option ℕ → Option Ticket → Bool → Db → Db
sync_manual_assignment org cid team user ticket linked db = elim (get_conversation cid org db) [
  | none ↦ db
  | some conv ↦
      let old = conv.assigned_user_id in
      let db1 = write_conversation cid (λ c. set_user user (set_team team c)) db in
      let db2 = adjust_active_count user (plus 1) (adjust_active_count old (minus 1) db1) in
      let db3 = if not (opt_eq old user) then db2 else db1 in
      sync_tickets cid team user (ticket_id ticket) linked (publish_assigned cid org db3)
]
