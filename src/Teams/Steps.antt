-- ===== src/Teams/Steps.antt =====
-- Sequences of successful calls of the service.
use ai_customer_support_plat.Prelude.{ℕ, ◌≡◌, false, Option, Text, returns}
use ai_customer_support_plat.Domain.{Team}
use ai_customer_support_plat.Teams.Service.{
  TeamTables, TeamMemberOut, create_team, update_team, delete_team, add_member, remove_member,
}
use ai_customer_support_plat.Teams.Rows.{has_team}
use ai_customer_support_plat.Teams.Invariant.{
  IsWellFormed, create_team-IsWellFormed, update_team-IsWellFormed,
}
use ai_customer_support_plat.Teams.Membership.{
  delete_team-IsWellFormed, add_member-IsWellFormed, remove_member-IsWellFormed,
}

-- One call that returns; the identifier of a new team is not in use.
pub data Call : TeamTables → TeamTables → Type 0 where
  creates :
      {s s' : TeamTables} (new_id org : ℕ) (name : Text) (description : Option Text) (t : Team)
      → has_team new_id s.teams ≡ false
      → create_team new_id org name description s ≡ returns (t, s')
      → Call s s'
  updates :
      {s s' : TeamTables} (org tid : ℕ) (name : Option Text) (description : Option (Option Text))
      (t : Team)
      → update_team org tid name description s ≡ returns (t, s')
      → Call s s'
  deletes : {s s' : TeamTables} (org tid : ℕ) → delete_team org tid s ≡ returns s' → Call s s'
  adds :
      {s s' : TeamTables} (org tid uid : ℕ) (out : TeamMemberOut)
      → add_member org tid uid s ≡ returns (out, s')
      → Call s s'
  removes :
      {s s' : TeamTables} (org tid uid : ℕ) → remove_member org tid uid s ≡ returns s' → Call s s'

pub data Calls : TeamTables → TeamTables → Type 0 where
  done : {s : TeamTables} → Calls s s
  next : {s s' s'' : TeamTables} → Call s s' → Calls s' s'' → Calls s s''

call-IsWellFormed : {s s' : TeamTables} → Call s s' → IsWellFormed s → IsWellFormed s'
call-IsWellFormed (creates new_id org name description t f h) w =
    create_team-IsWellFormed new_id org name description _ t _ f h w
call-IsWellFormed (updates org tid name description t h) w =
    update_team-IsWellFormed org tid name description _ t _ h w
call-IsWellFormed (deletes org tid h) w = delete_team-IsWellFormed org tid _ _ h w
call-IsWellFormed (adds org tid uid out h) w = add_member-IsWellFormed org tid uid _ out _ h w
call-IsWellFormed (removes org tid uid h) w = remove_member-IsWellFormed org tid uid _ _ h w

-- However many successful calls of `create_team`, `update_team`, `delete_team`, `add_member` and
-- `remove_member` follow each other from well-formed tables, new teams getting unused identifiers:
-- identifiers and names of teams stay distinct (names within an organisation and up to case), no one
-- is twice a member of a team, every membership's team exists, every conversation's and ticket's
-- team exists, and every team's last assignee is one of its members.
pub Calls-IsWellFormed : {s s' : TeamTables} → Calls s s' → IsWellFormed s → IsWellFormed s'
Calls-IsWellFormed done w = w
Calls-IsWellFormed (next c cs) w = Calls-IsWellFormed cs (call-IsWellFormed c w)
