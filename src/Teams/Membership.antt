-- ===== src/Teams/Membership.antt =====
-- Deleting a team, and adding and removing members, in well-formed tables.
use ai_customer_support_plat.Prelude.{
  ℕ, ◌≡◌, ◌∙◌, ◌⊎◌, refl, sym, subst, inl, inr, true, false, not, ◌||◌, List, [], ◌∷◌, ◌++◌, some,
  ◌==◌, opt_eq, filter_by, arith, All, All-snoc, All-map, Option-cases, ltb, Bool-cases, returns,
  returns-inv, guard-inv,
}
use ai_customer_support_plat.Domain.{Team, TeamMember}
use ai_customer_support_plat.Teams.Service.{
  TeamTables, find_team, get_team, put_team, delete_team, add_member, remove_member, has_member,
  drop_member, count_conversations, count_tickets, get_member_user, clear_last, TeamMemberOut,
  user_inactive, already_member, member_not_found, team_in_use,
}
use ai_customer_support_plat.Teams.Rows.{
  has_team, has_team-put, is_pointed, IsJoinedOnce, Frees, IsDistinct-put, IsDistinct-filter,
  All-replaced, find_team-All, find_team-found,
}
use ai_customer_support_plat.Teams.Members.{
  membership, has_member-snoc, has_member-drop, IsJoinedOnce-snoc, IsJoinedOnce-drop,
  IsJoinedOnce-delete, drop_member-All, is_pointed-weaken, members-delete, teams-delete,
  conversations-delete, tickets-delete,
}
use ai_customer_support_plat.Teams.Invariant.{
  IsWellFormed, refers-weaken, distinct-Frees, get_team-found,
}

zero_counts : (a b : ℕ) → (ltb 0 a || ltb 0 b) ≡ false → (a ≡ 0) × (b ≡ 0)
zero_counts a b h = ground arith

pub delete_team-IsWellFormed :
    (org tid : ℕ) (s s' : TeamTables)
    → delete_team org tid s ≡ returns s'
    → IsWellFormed s
    → IsWellFormed s'
unfolding delete_team
delete_team-IsWellFormed org tid s s' h w =
    let (t, e1, h1) = returns-inv (get_team org tid s) _ h in
    let (free, h2) =
      guard-inv
        (ltb 0 (count_conversations tid s.conversations) || ltb 0 (count_tickets tid s.tickets))
        team_in_use _ h1 in
    let (ei, eo) = find_team-found org tid t s.teams (get_team-found org tid s t e1) in
    let (zc, zt) =
      zero_counts (count_conversations tid s.conversations) (count_tickets tid s.tickets) free in
    let out : TeamTables = record s {
      teams = filter_by (λ (v : Team). not (v.id == tid)) s.teams;
      members = filter_by (λ (m : TeamMember). not (m.team_id == tid)) s.members;
    } in
    let e' : s' ≡ out = rw (sym ei) (ground arith) in
    let good : IsWellFormed out = record {
      distinct = IsDistinct-filter _ s.teams w.distinct;
      once = IsJoinedOnce-delete tid s.members w.once;
      known = members-delete tid s.teams s.members w.known;
      pointed = teams-delete tid s.members s.teams w.pointed;
      conversations = conversations-delete tid s.teams s.conversations zc w.conversations;
      tickets = tickets-delete tid s.teams s.tickets zt w.tickets;
    } in
    subst IsWellFormed (sym e') good

has_team-found :
    (org tid : ℕ) (t : Team) (ts : List Team)
    → find_team org tid ts ≡ some t
    → has_team tid ts ≡ true
unfolding find_team has_team
has_team-found org tid t [] h = absurd (ground arith)
has_team-found org tid t (u ∷ ts) h = ground (arith, has_team-found org tid t ts)

pub add_member-written :
    (org tid uid : ℕ) (s : TeamTables) (out : TeamMemberOut) (s' : TeamTables)
    → add_member org tid uid s ≡ returns (out, s')
    → (s' ≡ record s { members = s.members ++ membership tid uid ∷ [] })
      × (has_member tid uid s.members ≡ false)
      × ((t : Team) × (find_team org tid s.teams ≡ some t))
unfolding add_member
add_member-written org tid uid s out s' h =
    let (t, e1, h1) = returns-inv (get_team org tid s) _ h in
    let (u, e2, h2) = returns-inv (get_member_user org uid s) _ h1 in
    let (active, h3) = guard-inv (not u.is_active) user_inactive _ h2 in
    let (free, h4) = guard-inv (has_member tid uid s.members) already_member _ h3 in
    (ground arith, free, (t, get_team-found org tid s t e1))

pub add_member-IsWellFormed :
    (org tid uid : ℕ) (s : TeamTables) (out : TeamMemberOut) (s' : TeamTables)
    → add_member org tid uid s ≡ returns (out, s')
    → IsWellFormed s
    → IsWellFormed s'
add_member-IsWellFormed org tid uid s out s' h w =
    let (e, free, (t, found)) = add_member-written org tid uid s out s' h in
    let more : List TeamMember = s.members ++ membership tid uid ∷ [] in
    let good : IsWellFormed (record s { members = more }) = record {
      distinct = w.distinct;
      once = IsJoinedOnce-snoc tid uid s.members w.once free;
      known =
          All-snoc _ s.members (membership tid uid) w.known
            (has_team-found org tid t s.teams found);
      pointed =
          All-map
            (is_pointed-weaken s.members more
              (λ i u p. has_member-snoc tid uid i u s.members ∙ ground arith))
            s.teams w.pointed;
      conversations = w.conversations;
      tickets = w.tickets;
    } in
    subst IsWellFormed (sym e) good

clear_last_lem :
    (tid uid : ℕ) (t : Team) (ms : List TeamMember)
    → IsJoinedOnce ms
    → is_pointed ms t ≡ true
    → t.id ≡ tid
    → (is_pointed (drop_member tid uid ms) (clear_last uid t) ≡ true)
      × ((clear_last uid t).id ≡ tid)
unfolding is_pointed
clear_last_lem tid uid t ms d h e = elim (Option-cases t.last_assigned_user_id) [
  | inl x ↦ (ground arith, ground arith)
  | inr (u, x) ↦ (ground (arith, has_member-drop tid uid t.id u ms d), ground arith)
]

still_pointed :
    (tid uid : ℕ) (ms : List TeamMember) (v : Team)
    → IsJoinedOnce ms
    → is_pointed ms v ≡ true
    → (v.id ≡ tid) ⊎ (is_pointed (drop_member tid uid ms) v ≡ true)
unfolding is_pointed
still_pointed tid uid ms v d h = elim (Bool-cases (v.id == tid)) [
  | inl x ↦ inl (ground arith)
  | inr x ↦ elim (Option-cases v.last_assigned_user_id) [
    | inl y ↦ inr (rw (y, is_pointed) refl)
    | inr (u, y) ↦ inr (rw (y, is_pointed) (ground (arith, has_member-drop tid uid v.id u ms d)))
  ]
]

pub remove_member-written :
    (org tid uid : ℕ) (s s' : TeamTables)
    → remove_member org tid uid s ≡ returns s'
    → (t : Team) × (find_team org tid s.teams ≡ some t)
      × (has_member tid uid s.members ≡ true)
      × (s' ≡ record s {
        teams = put_team (clear_last uid t) s.teams;
        members = drop_member tid uid s.members;
      })
unfolding remove_member
remove_member-written org tid uid s s' h =
    let (t, e1, h1) = returns-inv (get_team org tid s) _ h in
    let (there, h2) = guard-inv (not (has_member tid uid s.members)) member_not_found _ h1 in
    (t, get_team-found org tid s t e1, ground arith, ground arith)

clear_last-Frees :
    (uid : ℕ) (t : Team) (ts : List Team) → All (Frees t) ts → All (Frees (clear_last uid t)) ts
clear_last-Frees uid t ts a = elim (Bool-cases (opt_eq t.last_assigned_user_id (some uid))) [
  | inl x ↦ rw x a
  | inr x ↦ rw x a
]

pub remove_member-IsWellFormed :
    (org tid uid : ℕ) (s s' : TeamTables)
    → remove_member org tid uid s ≡ returns s'
    → IsWellFormed s
    → IsWellFormed s'
remove_member-IsWellFormed org tid uid s s' h w =
    let (t, found, there, e) = remove_member-written org tid uid s s' h in
    let (ei, eo) = find_team-found org tid t s.teams found in
    let u = clear_last uid t in
    let left = drop_member tid uid s.members in
    let (pu, iu) =
      clear_last_lem tid uid t s.members w.once (find_team-All _ org tid t s.teams w.pointed found)
        ei in
    let same : (u.id ≡ t.id) = iu ∙ sym ei in
    let f = clear_last-Frees uid t s.teams (distinct-Frees org tid t s.teams w.distinct found) in
    let keeps = λ (i : ℕ) (q : has_team i s.teams ≡ true). has_team-put i u s.teams ∙ q in
    let good : IsWellFormed (record s { teams = put_team u s.teams; members = left }) = record {
      distinct = IsDistinct-put u s.teams w.distinct f;
      once = IsJoinedOnce-drop tid uid s.members w.once;
      known =
          drop_member-All _ tid uid s.members
            (All-map (λ m q. has_team-put m.team_id u s.teams ∙ q) s.members w.known);
      pointed =
          All-replaced _ u s.teams
            (rw iu (All-map (λ v q. still_pointed tid uid s.members v w.once q) s.teams w.pointed))
            pu;
      conversations =
          All-map (λ c. refers-weaken s.teams (put_team u s.teams) keeps c.assigned_team_id)
            s.conversations w.conversations;
      tickets =
          All-map (λ r. refers-weaken s.teams (put_team u s.teams) keeps r.assigned_team_id)
            s.tickets w.tickets;
    } in
    subst IsWellFormed (sym e) good
