-- ===== src/Assignment/Rotation.antt =====
-- `find_available_agent`: the members of one team who may take a conversation, in the order of
-- their ids, and the next of them after the last one assigned.
use ai_customer_support_plat.Prelude.{
  ℕ, zero, suc, ◌+◌, ◌%◌, Bool, true, false, ◌&&◌, List, [], ◌∷◌, Option, none, some, Table, ltb,
  ◌==◌, if◌then◌else◌, length, filter_by, contains,
}
use ai_customer_support_plat.Domain.{
  AgentStatus, online, away, offline, AgentAvailability, Team, TeamMember, Db,
}

abbrev pub is_status : AgentStatus → AgentStatus → Bool
is_status online online = true
is_status away away = true
is_status offline offline = true
is_status _ _ = false

-- `_is_eligible(agent, allow_offline, allow_away)`
unfoldable pub is_eligible : Bool → Bool → AgentAvailability → Bool
is_eligible allow_offline allow_away agent =
    if is_status agent.status online
    then true
    else if allow_away && is_status agent.status away
    then true
    else if allow_offline && is_status agent.status offline
    then true
    else false

-- `db.get(Team, team_id)`
unfoldable pub get_team : ℕ → List Team → Option Team
get_team tid [] = none
get_team tid (t ∷ ts) = if t.id == tid then some t else get_team tid ts

-- The user ids of the rows of `team_members` with this team.
unfoldable pub member_ids : ℕ → List TeamMember → List ℕ
member_ids tid [] = []
member_ids tid (m ∷ ms) =
    if m.team_id == tid then m.user_id ∷ member_ids tid ms else member_ids tid ms

-- The ids whose availability row exists and is eligible.
abbrev pub row_is : (AgentAvailability → Bool) → Option AgentAvailability → Bool
row_is p none = false
row_is p (some a) = p a

unfoldable pub eligible_ids : Bool → Bool → Table AgentAvailability → List ℕ → List ℕ
eligible_ids off aw rows ids = filter_by (λ u. row_is (is_eligible off aw) (rows u)) ids

-- `sorted({...})`: ascending, each once.
unfoldable pub insert_id : ℕ → List ℕ → List ℕ
insert_id x [] = x ∷ []
insert_id x (y ∷ ys) = if ltb x y then x ∷ y ∷ ys else if x == y then y ∷ ys else y ∷ insert_id x ys

unfoldable pub sorted_set : List ℕ → List ℕ
unfolding insert_id
sorted_set [] = []
sorted_set (x ∷ xs) = insert_id x (sorted_set xs)

-- `ordered_ids.index(last_id)`, asked only of a member.
unfoldable pub index : ℕ → List ℕ → ℕ
index x [] = 0
index x (y ∷ ys) = if x == y then 0 else suc (index x ys)

unfoldable pub get_elem? : List ℕ → ℕ → Option ℕ
get_elem? [] i = none
get_elem? (x ∷ xs) zero = some x
get_elem? (x ∷ xs) (suc i) = get_elem? xs i

-- The choice among the ordered ids, which is `ordered_ids[0]` unless the last one is among them.
unfoldable pub next_id : Option ℕ → List ℕ → Option ℕ
unfolding index get_elem?
next_id none ordered = get_elem? ordered 0
next_id (some last) ordered =
    if contains last ordered
    then get_elem? ordered ((index last ordered + 1) % length ordered)
    else get_elem? ordered 0

-- The ordered candidates of a team.
unfoldable pub candidates : Bool → Bool → ℕ → Db → List ℕ
unfolding eligible_ids member_ids sorted_set
candidates off aw tid db =
    sorted_set (eligible_ids off aw db.availability (member_ids tid db.members))

unfoldable pub find_available_agent : Bool → Bool → ℕ → Db → Option ℕ
find_available_agent off aw tid db = elim (get_team tid db.teams) [
  | none ↦ none
  | some team ↦ next_id team.last_assigned_user_id (candidates off aw tid db)
]
