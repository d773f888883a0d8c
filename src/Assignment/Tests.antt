-- ===== src/Assignment/Tests.antt =====
-- A team of three agents, two of them online, and the theorems of the service on it.
use ai_customer_support_plat.Prelude.{
  ◌≡◌, ◌≢◌, ◌⊎◌, refl, Bool, true, false, [], ◌∷◌, none, some, Table, put, Text, codes, ◌==◌,
  if◌then◌else◌, arith,
}
use ai_customer_support_plat.Domain.{
  Conversation, Team, AgentAvailability, Db, online, away, web_chat, open_status, normal,
  ai_control,
}
use ai_customer_support_plat.Assignment.Rotation.{
  is_eligible, get_team, member_ids, eligible_ids, sorted_set, next_id, candidates, get_elem?,
  find_available_agent,
}
use ai_customer_support_plat.Assignment.Choice.{IsSound, find_available_agent-IsSound}
use ai_customer_support_plat.Assignment.Writes.{
  adjust_active_count, publish_assigned, write_conversation, set_last, get_conversation,
  user_on_team, sync_tickets, row_refuses,
}
use ai_customer_support_plat.Assignment.Service.{
  TeamRef, move_user, assign_user, take_next, release, choose_assignee, settle, ensure_for,
  ensure_assignee_for_team, assign_team, round_robin_in, resolve_team, assign_round_robin,
  auto_assign_if_needed, sync_manual_assignment,
}
use ai_customer_support_plat.Assignment.Turns.{IsTurn, assign_each, answer, assign_each-turns}
use ai_customer_support_plat.Assignment.Ensure.{IsEnsured, ensure_assignee_for_team-IsEnsured}
use ai_customer_support_plat.Assignment.Transfer.{IsTransfer, assign_user-outcomes}

abbrev chat : Conversation
chat = record {
  organization_id = 9;
  customer_id = 1;
  channel = web_chat;
  status = open_status;
  priority = normal;
  assigned_user_id = none;
  assigned_team_id = none;
  subject = none;
  ai_control_mode = ai_control;
}

abbrev support : Team
support = record {
  id = 70;
  organization_id = 9;
  name = codes "Support";
  description = none;
  last_assigned_user_id = some 5;
}

abbrev rows : Table AgentAvailability
rows u =
    if u == 5
    then some (record { status = online; active_conversation_count = 2 })
    else if u == 3
    then some (record { status = online; active_conversation_count = 0 })
    else if u == 4
    then some (record { status = away; active_conversation_count = 1 })
    else none

abbrev desk : Db
desk = record {
  conversations = λ c. if c == 100 then some chat else if c == 101 then some chat else none;
  teams = support ∷ [];
  members =
      record { team_id = 70; user_id = 5 }
      ∷ record { team_id = 70; user_id = 3 }
      ∷ record { team_id = 71; user_id = 8 }
      ∷ record { team_id = 70; user_id = 4 }
      ∷ [];
  availability = rows;
  tickets =
      record {
        id = 200;
        organization_id = 9;
        conversation_id = 100;
        priority = normal;
        assigned_user_id = none;
        assigned_team_id = none;
      }
      ∷ [];
  timers = [];
  policies = [];
  events = [];
  depth = 0;
}

service : Unit {0}
unfolding is_eligible get_team member_ids eligible_ids sorted_set next_id candidates get_elem?
    find_available_agent adjust_active_count publish_assigned write_conversation set_last
    get_conversation user_on_team sync_tickets move_user assign_user take_next release
    choose_assignee settle ensure_for ensure_assignee_for_team assign_team round_robin_in
    resolve_team assign_round_robin auto_assign_if_needed sync_manual_assignment assign_each put
service = tt

no_names : Text → TeamRef → Bool
no_names name r = false

-- Agents 3 and 5 alternate; agent 4 is away; after 5 comes 3.
alternation :
    assign_each no_names 9 70 false false (100 ∷ 101 ∷ 100 ∷ []) desk
    ≡ some 3 ∷ some 5 ∷ some 3 ∷ []
unfolding service
alternation = refl

away_allowed : find_available_agent false true 70 desk ≡ some 3
unfolding service
away_allowed = refl

IsTurn-at_desk : IsTurn false false 70 (3 ∷ 5 ∷ []) 1 desk
unfolding service
IsTurn-at_desk = record {
  team = support;
  last = 5;
  found = refl;
  pointed = refl;
  roster = refl;
  placed = refl;
}

find_available_agent-IsSound_example :
    IsSound false false 70 desk (find_available_agent false false 70 desk)
unfolding service
find_available_agent-IsSound_example = find_available_agent-IsSound false false 70 desk support refl

assign_each-turns_example :
    answer (assign_each no_names 9 70 false false (100 ∷ 101 ∷ 100 ∷ []) desk) 2
    ≡ get_elem? (3 ∷ 5 ∷ []) 0
unfolding service
assign_each-turns_example =
    assign_each-turns no_names 9 70 false false (3 ∷ 5 ∷ []) (100 ∷ 101 ∷ 100 ∷ []) 1 2 desk
      IsTurn-at_desk (refl, (refl, (refl, tt))) (omega arith)

ensure_assignee_for_team-IsEnsured_example :
    let (r, db') = ensure_assignee_for_team 9 70 (some 100) none true true desk in
    IsEnsured 100 70 none true true none desk r db'
unfolding service
ensure_assignee_for_team-IsEnsured_example =
    ensure_assignee_for_team-IsEnsured 9 70 100 none true true desk chat support refl refl refl

assign_user-outcomes_example :
    (((assign_user 100 9 3 false false false desk ≡ (false, desk)))
      × ((get_conversation 100 9 desk ≡ none)
          ⊎ ((conv : Conversation) × (get_conversation 100 9 desk ≡ some conv)
              × ((conv.assigned_user_id ≡ some 3)
                  ⊎ ((false ≡ false) × (row_refuses false false (rows 3) ≡ true))))))
    ⊎ ((conv : Conversation) × ((assign_user 100 9 3 false false false desk).0 ≡ true)
        × (get_conversation 100 9 desk ≡ some conv)
        × (conv.assigned_user_id ≢ some 3)
        × ((false ≡ true) ⊎ (row_refuses false false (rows 3) ≡ false))
        × IsTransfer 100 3 conv desk (assign_user 100 9 3 false false false desk).1)
assign_user-outcomes_example = assign_user-outcomes 100 9 3 false false false desk
