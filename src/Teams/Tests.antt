-- ===== src/Teams/Tests.antt =====
-- Organisation 1 with team 5 ("Sales"), whose last assignee is its member 8, and users 8 and 9.
use ai_customer_support_plat.Prelude.{
  ℕ, ◌≡◌, refl, true, [], ◌∷◌, none, some, arith, codes, text_eq, is_space, lstrip, strip,
  lower_code, lower, returns, raises,
}
use ai_customer_support_plat.Domain.{Team, Conversation, web_chat, open_status, normal, ai_control}
use ai_customer_support_plat.Users.Service.{User, find_user}
use ai_customer_support_plat.Auth.Permissions.{agent}
use ai_customer_support_plat.Teams.Service.{
  TeamTables, TeamMemberOut, find_team, get_team, is_taken, ensure_unique_name, create_team,
  put_team, update_team, count_conversations, count_tickets, delete_team, has_member,
  get_member_user, add_member, drop_member, remove_member, name_exists, team_in_use,
}
use ai_customer_support_plat.Teams.Rows.{has_team, is_pointed}
use ai_customer_support_plat.Teams.Invariant.{IsWellFormed}
use ai_customer_support_plat.Teams.Steps.{creates, adds, deletes, done, next, Calls-IsWellFormed}
use ai_customer_support_plat.Teams.Undo.{add_member-remove_member}

service : Unit {0}
unfolding text_eq is_space lstrip strip lower_code lower find_user find_team get_team is_taken
    ensure_unique_name create_team put_team update_team count_conversations count_tickets
    delete_team has_member get_member_user add_member drop_member remove_member has_team is_pointed
service = tt

abbrev user : ℕ → User
user i = record {
  id = i;
  organization_id = 1;
  role = some agent;
  email = codes "a@x.org";
  full_name = codes "A";
  hashed_password = [];
  is_active = true;
}

abbrev sales : Team
sales = record {
  id = 5;
  organization_id = 1;
  name = codes "Sales";
  description = none;
  last_assigned_user_id = some 8;
}

abbrev conversation : Conversation
conversation = record {
  organization_id = 1;
  customer_id = 2;
  channel = web_chat;
  status = open_status;
  priority = normal;
  assigned_user_id = none;
  assigned_team_id = some 5;
  subject = none;
  ai_control_mode = ai_control;
}

abbrev tables : TeamTables
tables = record {
  teams = sales ∷ [];
  members = record { team_id = 5; user_id = 8 } ∷ [];
  users = user 8 ∷ user 9 ∷ [];
  conversations = conversation ∷ [];
  tickets = [];
}

tables-IsWellFormed : IsWellFormed tables
unfolding service
tables-IsWellFormed = record {
  distinct = (tt, tt);
  once = (refl, tt);
  known = (refl, tt);
  pointed = (refl, tt);
  conversations = (refl, tt);
  tickets = tt;
}

abbrev support : Team
support = record {
  id = 6;
  organization_id = 1;
  name = codes "Support";
  description = none;
  last_assigned_user_id = none;
}

abbrev with_support : TeamTables
with_support = record tables { teams = sales ∷ support ∷ [] }

abbrev joined : TeamTables
joined = record with_support {
  members = record { team_id = 5; user_id = 8 } ∷ record { team_id = 6; user_id = 9 } ∷ [];
}

abbrev member : TeamMemberOut
member = record { user_id = 9; email = codes "a@x.org"; full_name = codes "A"; is_active = true }

service_tests :
    (create_team 6 1 (codes " SALES") none tables ≡ raises name_exists)
    × (create_team 6 1 (codes " Support ") none tables ≡ returns (support, with_support))
    × (delete_team 1 5 tables ≡ raises team_in_use)
    × (add_member 1 6 9 with_support ≡ returns (member, joined))
    × (remove_member 1 5 8 tables
        ≡ returns (record tables {
          teams = record sales { last_assigned_user_id = none } ∷ [];
          members = [];
        }))
unfolding service
service_tests = (refl, refl, refl, refl, refl)

abbrev final : TeamTables
final = record with_support { teams = sales ∷ [] }

Calls-IsWellFormed_example : IsWellFormed final
unfolding service
Calls-IsWellFormed_example =
    Calls-IsWellFormed {s = tables} {s' = final}
      (next {s' = with_support} (creates 6 1 (codes " Support ") none support refl refl)
        (next {s' = joined} (adds 1 6 9 member refl) (next (deletes 1 6 refl) done)))
      tables-IsWellFormed

add_member-remove_member_example : remove_member 1 6 9 joined ≡ returns with_support
unfolding service
add_member-remove_member_example =
    add_member-remove_member 1 6 9 with_support member joined
      (record {
        distinct = ((((λ e. absurd (ground arith)), refl), tt), (tt, tt));
        once = (refl, tt);
        known = (refl, tt);
        pointed = (refl, (refl, tt));
        conversations = (refl, tt);
        tickets = tt;
      })
      refl
