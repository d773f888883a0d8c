-- ===== src/Teams/Service.antt =====
-- backend/app/modules/teams/service.py: `TeamService`. The request's session rolls back when
-- `TeamServiceError` is raised, so an error carries no state. The identifier of a new team is an
-- argument. SQL's `lower` is read on ASCII text.
use ai_customer_support_plat.Prelude.{
  ℕ, Bool, not, ◌&&◌, ◌||◌, List, [], ◌∷◌, ◌++◌, Option, none, some, ltb, ◌==◌, opt_eq,
  if◌then◌else◌, length, filter_by, any, Text, text_eq, strip, lower, Attempt, returns, raises,
  ◌>>=◌, ◌>>◌, guard,
}
use ai_customer_support_plat.Domain.{Team, TeamMember, Conversation, Ticket}
use ai_customer_support_plat.Users.Service.{User, find_user}

pub data TeamServiceError : Type 0 where
  team_not_found team_in_use user_not_found user_inactive already_member member_not_found
        name_exists :
      TeamServiceError

unfoldable pub status_code : TeamServiceError → ℕ
status_code team_not_found = 404
status_code user_not_found = 404
status_code member_not_found = 404
status_code _ = 409

abbrev pub Raises : Type 0 → Type 0
Raises A = Attempt TeamServiceError A

-- The tables that the service reads and writes.
pub record TeamTables : Type 0 where
  pub teams : List Team
  pub members : List TeamMember
  pub users : List User
  pub conversations : List Conversation
  pub tickets : List Ticket

unfoldable pub find_team : ℕ → ℕ → List Team → Option Team
find_team org tid [] = none
find_team org tid (t ∷ ts) =
    if t.id == tid && t.organization_id == org then some t else find_team org tid ts

unfoldable pub get_team : ℕ → ℕ → TeamTables → Raises Team
unfolding find_team
get_team org tid s = elim (find_team org tid s.teams) [
  | none ↦ raises team_not_found
  | some t ↦ returns t
]

abbrev pub has_name : ℕ → Text → Team → Bool
has_name org n t = t.organization_id == org && text_eq (lower t.name) n

-- A row with the name, other than the excluded team.
unfoldable pub is_taken : ℕ → Text → Option ℕ → List Team → Bool
is_taken org n exclude teams =
    any (λ (t : Team). has_name org n t && not (opt_eq exclude (some t.id))) teams

-- `_ensure_unique_name`
unfoldable pub ensure_unique_name : ℕ → Text → Option ℕ → List Team → Raises (Unit {0})
unfolding is_taken
ensure_unique_name org name exclude teams =
    guard (is_taken org (lower (strip name)) exclude teams) name_exists

unfoldable pub create_team : ℕ → ℕ → Text → Option Text → TeamTables → Raises (Team × TeamTables)
unfolding ensure_unique_name
create_team new_id org name description s = do
  ensure_unique_name org name none s.teams
  let team : Team = record {
    id = new_id;
    organization_id = org;
    name = strip name;
    description = description;
    last_assigned_user_id = none;
  }
  returns (team, record s { teams = s.teams ++ team ∷ [] })

-- The row of one team written back.
unfoldable pub put_team : Team → List Team → List Team
put_team u [] = []
put_team u (t ∷ ts) = (if t.id == u.id then u else t) ∷ put_team u ts

abbrev pub rename : ℕ → ℕ → Option Text → Team → TeamTables → Raises Team
rename org tid none team s = returns team
rename org tid (some name) team s = do
  ensure_unique_name org name (some tid) s.teams
  returns (record team { name = strip name })

-- `description` is `some d` when `description_set`.
abbrev pub describe : Option (Option Text) → Team → Team
describe none team = team
describe (some d) team = record team { description = d }

unfoldable pub update_team :
    ℕ → ℕ → Option Text → Option (Option Text) → TeamTables → Raises (Team × TeamTables)
unfolding get_team ensure_unique_name put_team
update_team org tid name description s = do
  found ← get_team org tid s
  renamed ← rename org tid name found s
  let team = describe description renamed
  returns (team, record s { teams = put_team team s.teams })

-- `select(func.count())` of the conversations and of the tickets assigned to the team.
unfoldable pub count_conversations : ℕ → List Conversation → ℕ
count_conversations tid cs =
    length (filter_by (λ (c : Conversation). opt_eq c.assigned_team_id (some tid)) cs)

unfoldable pub count_tickets : ℕ → List Ticket → ℕ
count_tickets tid ts = length (filter_by (λ (t : Ticket). opt_eq t.assigned_team_id (some tid)) ts)

unfoldable pub delete_team : ℕ → ℕ → TeamTables → Raises TeamTables
unfolding get_team count_conversations count_tickets
delete_team org tid s = do
  team ← get_team org tid s
  guard (ltb 0 (count_conversations tid s.conversations) || ltb 0 (count_tickets tid s.tickets))
      team_in_use
  returns (record s {
    teams = filter_by (λ (t : Team). not (t.id == team.id)) s.teams;
    members = filter_by (λ (m : TeamMember). not (m.team_id == tid)) s.members;
  })

abbrev pub is_membership : ℕ → ℕ → TeamMember → Bool
is_membership tid uid m = m.team_id == tid && m.user_id == uid

unfoldable pub has_member : ℕ → ℕ → List TeamMember → Bool
has_member tid uid ms = any (is_membership tid uid) ms

pub record TeamMemberOut : Type 0 where
  pub user_id : ℕ
  pub email : Text
  pub full_name : Text
  pub is_active : Bool

abbrev pub member_out : User → TeamMemberOut
member_out u = record {
  user_id = u.id;
  email = u.email;
  full_name = u.full_name;
  is_active = u.is_active;
}

unfoldable pub get_member_user : ℕ → ℕ → TeamTables → Raises User
unfolding find_user
get_member_user org uid s = elim (find_user org uid s.users) [
  | none ↦ raises user_not_found
  | some u ↦ returns u
]

unfoldable pub add_member : ℕ → ℕ → ℕ → TeamTables → Raises (TeamMemberOut × TeamTables)
unfolding get_team get_member_user has_member
add_member org tid uid s = do
  team ← get_team org tid s
  user ← get_member_user org uid s
  guard (not user.is_active) user_inactive
  guard (has_member tid uid s.members) already_member
  let membership : TeamMember = record { team_id = tid; user_id = uid }
  returns (member_out user, record s { members = s.members ++ membership ∷ [] })

abbrev pub clear_last : ℕ → Team → Team
clear_last uid t =
    if opt_eq t.last_assigned_user_id (some uid)
    then record t { last_assigned_user_id = none }
    else t

-- The first row of the membership is deleted.
unfoldable pub drop_member : ℕ → ℕ → List TeamMember → List TeamMember
drop_member tid uid [] = []
drop_member tid uid (m ∷ ms) = if is_membership tid uid m then ms else m ∷ drop_member tid uid ms

unfoldable pub remove_member : ℕ → ℕ → ℕ → TeamTables → Raises TeamTables
unfolding get_team has_member put_team drop_member
remove_member org tid uid s = do
  team ← get_team org tid s
  guard (not (has_member tid uid s.members)) member_not_found
  returns (record s {
    teams = put_team (clear_last uid team) s.teams;
    members = drop_member tid uid s.members;
  })
