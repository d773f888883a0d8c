-- ===== src/Teams/Invariant.antt =====
-- Well-formed tables of teams, and that the methods of the service keep them so.
use ai_customer_support_plat.Prelude.{
  ℕ, ◌≡◌, ◌∙◌, refl, sym, ap, subst, inl, inr, true, false, ◌&&◌, List, [], ◌∷◌, ◌++◌, Option, none,
  some, ◌==◌, arith, All, All-snoc, All-map, Option-cases, Bool-cases, Text, text_eq_iff, lower,
  strip, returns, returns-inv, guard-inv,
}
use ai_customer_support_plat.Domain.{Team, TeamMember, Conversation, Ticket}
use ai_customer_support_plat.Teams.Service.{
  TeamTables, find_team, get_team, is_taken, ensure_unique_name, create_team, put_team, rename,
  describe, update_team, name_exists,
}
use ai_customer_support_plat.Teams.Rows.{
  IsDistinct, has_team, has_team-snoc, has_team-put, is_pointed, IsJoinedOnce, Differs,
  same_name-sym, Frees, IsDistinct-put, IsDistinct-snoc, All-put, find_team-All, find_team-found,
}
use ai_customer_support_plat.Teams.Members.{refers}

-- Identifiers and names are distinct, no one is twice a member, and what a row refers to exists: a
-- membership's team, the team of a conversation and of a ticket, and a team's last assignee among
-- its members.
pub record IsWellFormed (s : TeamTables) : Type 0 where
  pub distinct : IsDistinct s.teams
  pub once : IsJoinedOnce s.members
  pub known : All (λ (m : TeamMember). has_team m.team_id s.teams ≡ true) s.members
  pub pointed : All (λ (t : Team). is_pointed s.members t ≡ true) s.teams
  pub conversations :
      All (λ (c : Conversation). refers c.assigned_team_id s.teams ≡ true) s.conversations
  pub tickets : All (λ (r : Ticket). refers r.assigned_team_id s.teams ≡ true) s.tickets

-- More teams of the same members leave the references valid.
pub refers-weaken :
    (ts ts' : List Team)
    → ((i : ℕ) → has_team i ts ≡ true → has_team i ts' ≡ true)
    → (o : Option ℕ) → refers o ts ≡ true
    → refers o ts' ≡ true
refers-weaken ts ts' f none h = refl
refers-weaken ts ts' f (some i) h = f i h

pub retarget :
    (s : TeamTables) (ts' : List Team)
    → IsWellFormed s
    → ((i : ℕ) → has_team i s.teams ≡ true → has_team i ts' ≡ true)
    → IsDistinct ts'
    → All (λ (t : Team). is_pointed s.members t ≡ true) ts'
    → IsWellFormed (record s { teams = ts' })
retarget s ts' w f d p = record {
  distinct = d;
  once = w.once;
  known = All-map (λ m. f m.team_id) s.members w.known;
  pointed = p;
  conversations =
      All-map (λ c. refers-weaken s.teams ts' f c.assigned_team_id) s.conversations w.conversations;
  tickets = All-map (λ r. refers-weaken s.teams ts' f r.assigned_team_id) s.tickets w.tickets;
}

pub create_team-IsWellFormed :
    (new_id org : ℕ) (name : Text) (description : Option Text) (s : TeamTables) (t : Team)
    (s' : TeamTables)
    → has_team new_id s.teams ≡ false
    → create_team new_id org name description s ≡ returns (t, s')
    → IsWellFormed s
    → IsWellFormed s'
unfolding create_team ensure_unique_name is_pointed
create_team-IsWellFormed new_id org name description s t s' f h w =
    let u : Team = record {
      id = new_id;
      organization_id = org;
      name = strip name;
      description = description;
      last_assigned_user_id = none;
    } in
    let (free, e) = guard-inv (is_taken org (lower (strip name)) none s.teams) name_exists _ h in
    let e' : s' ≡ record s { teams = s.teams ++ u ∷ [] } = ground arith in
    subst IsWellFormed (sym e') (
      retarget s (s.teams ++ u ∷ []) w (λ i p. ground (arith, has_team-snoc i u s.teams))
        (IsDistinct-snoc u s.teams w.distinct f free) (All-snoc _ s.teams u w.pointed refl))

pub get_team-found :
    (org tid : ℕ) (s : TeamTables) (t : Team)
    → get_team org tid s ≡ returns t
    → find_team org tid s.teams ≡ some t
unfolding get_team
get_team-found org tid s t h = elim (Option-cases (find_team org tid s.teams)) [
  | inl missing ↦ absurd (ground arith)
  | inr (v, e) ↦ ground arith
]

pub distinct-Frees :
    (org tid : ℕ) (t : Team) (ts : List Team)
    → IsDistinct ts
    → find_team org tid ts ≡ some t
    → All (Frees t) ts
unfolding find_team
distinct-Frees org tid t [] d h = tt
distinct-Frees org tid t (u ∷ ts) d h =
    elim (Bool-cases (u.id == tid && u.organization_id == org)) [
      | inl x ↦
          let e : u ≡ t = ground arith in
          (
            inl (ap (λ (v : Team). v.id) e),
            subst (λ v. All (Frees v) ts) e (All-map (λ v p. inr p.1) ts d.0),
          )
      | inr x ↦
          let later : find_team org tid ts ≡ some t = ground arith in
          (
            inr (same_name-sym t u ∙ (find_team-All (Differs u) org tid t ts d.0 later).1),
            distinct-Frees org tid t ts d.1 later,
          )
    ]

untaken-Frees :
    (org tid : ℕ) (n : Text) (t : Team) (ts : List Team)
    → t.id ≡ tid
    → t.organization_id ≡ org
    → lower t.name ≡ n
    → is_taken org n (some tid) ts ≡ false
    → All (Frees t) ts
unfolding is_taken
untaken-Frees org tid n t [] e eo en h = tt
untaken-Frees org tid n t (u ∷ ts) e eo en h = elim (Bool-cases (u.id == tid)) [
  | inl x ↦ (inl (ground arith), untaken-Frees org tid n t ts e eo en (ground arith))
  | inr x ↦ (
    inr (ground (arith, text_eq_iff (lower t.name) (lower u.name), text_eq_iff (lower u.name) n)),
    untaken-Frees org tid n t ts e eo en (ground arith),
  )
]

-- What a rename leaves, and that no other team has the name.
rename_lem :
    (org tid : ℕ) (name : Option Text) (t u : Team) (s : TeamTables)
    → IsDistinct s.teams
    → find_team org tid s.teams ≡ some t
    → rename org tid name t s ≡ returns u
    → (u.id ≡ t.id) × (u.last_assigned_user_id ≡ t.last_assigned_user_id) × All (Frees u) s.teams
unfolding ensure_unique_name
rename_lem org tid none t u s d h r =
    let e : t ≡ u = ground arith in
    (
      ap (λ (v : Team). v.id) (sym e),
      ap (λ (v : Team). v.last_assigned_user_id) (sym e),
      subst (λ v. All (Frees v) s.teams) e (distinct-Frees org tid t s.teams d h),
    )
rename_lem org tid (some name) t u s d h r =
    let (free, r') =
      guard-inv (is_taken org (lower (strip name)) (some tid) s.teams) name_exists _ r in
    let e : record t { name = strip name } ≡ u = ground arith in
    let (ei, eo) = find_team-found org tid t s.teams h in
    (
      ap (λ (v : Team). v.id) (sym e),
      ap (λ (v : Team). v.last_assigned_user_id) (sym e),
      subst (λ v. All (Frees v) s.teams) e
          (untaken-Frees org tid (lower (strip name)) (record t { name = strip name }) s.teams ei eo
            refl free),
    )

is_pointed-same :
    (ms : List TeamMember) (t u : Team)
    → u.id ≡ t.id
    → u.last_assigned_user_id ≡ t.last_assigned_user_id
    → is_pointed ms t ≡ true
    → is_pointed ms u ≡ true
unfolding is_pointed
is_pointed-same ms t u e l h = elim (Option-cases t.last_assigned_user_id) [
  | inl x ↦ rw (l ∙ x, is_pointed) refl
  | inr (w, x) ↦ rw (l ∙ x, is_pointed) (ground arith)
]

describe_lem :
    (d : Option (Option Text)) (u : Team) (ts : List Team) (ms : List TeamMember)
    → All (Frees u) ts
    → is_pointed ms u ≡ true
    → All (Frees (describe d u)) ts × (is_pointed ms (describe d u) ≡ true)
unfolding is_pointed
describe_lem none u ts ms a p = (a, p)
describe_lem (some x) u ts ms a p = (a, p)

pub update_team-IsWellFormed :
    (org tid : ℕ) (name : Option Text) (description : Option (Option Text)) (s : TeamTables)
    (t : Team) (s' : TeamTables)
    → update_team org tid name description s ≡ returns (t, s')
    → IsWellFormed s
    → IsWellFormed s'
unfolding update_team
update_team-IsWellFormed org tid name description s t s' h w =
    let (v, e1, h1) = returns-inv (get_team org tid s) _ h in
    let (u, e2, h2) = returns-inv (rename org tid name v s) _ h1 in
    let found = get_team-found org tid s v e1 in
    let (ei, el, frees_u) = rename_lem org tid name v u s w.distinct found e2 in
    let p : is_pointed s.members u ≡ true =
      is_pointed-same s.members v u ei el (find_team-All _ org tid v s.teams w.pointed found) in
    let (frees_d, pd) = describe_lem description u s.teams s.members frees_u p in
    let e' : s' ≡ record s { teams = put_team (describe description u) s.teams } = ground arith in
    subst IsWellFormed (sym e') (
      retarget s (put_team (describe description u) s.teams) w
        (λ i q. has_team-put i (describe description u) s.teams ∙ q)
        (IsDistinct-put (describe description u) s.teams w.distinct frees_d)
        (All-put _ (describe description u) s.teams w.pointed pd))
