-- ===== src/Teams/Undo.antt =====
-- Removing a member who was just added.
use ai_customer_support_plat.Prelude.{
  ℕ, ◌≡◌, ◌≢◌, ◌∙◌, refl, sym, subst, ◌&&◌, true, false, List, [], ◌∷◌, ◌++◌, some, ◌==◌, arith,
  returns,
}
use ai_customer_support_plat.Domain.{Team, TeamMember}
use ai_customer_support_plat.Teams.Service.{
  TeamTables, TeamMemberOut, add_member, remove_member, has_member, drop_member,
}
use ai_customer_support_plat.Teams.Members.{membership}
use ai_customer_support_plat.Teams.Invariant.{IsWellFormed}
use ai_customer_support_plat.Teams.Membership.{add_member-written}
use ai_customer_support_plat.Prelude.{All, All-map, inl, inr, Bool-cases, Option-cases}
use ai_customer_support_plat.Teams.Service.{find_team, get_team, put_team, clear_last}
use ai_customer_support_plat.Teams.Rows.{IsDistinct, is_pointed, find_team-All, find_team-found}
use ai_customer_support_plat.Teams.Members.{has_member-snoc}

drop_member-snoc :
    (tid uid : ℕ) (ms : List TeamMember)
    → has_member tid uid ms ≡ false
    → drop_member tid uid (ms ++ membership tid uid ∷ []) ≡ ms
unfolding drop_member has_member
drop_member-snoc tid uid [] h = ground arith
drop_member-snoc tid uid (m ∷ ms) h = ground (arith, drop_member-snoc tid uid ms)

put_team-other :
    (t : Team) (ts : List Team) → All (λ (v : Team). v.id ≢ t.id) ts → put_team t ts ≡ ts
unfolding put_team
put_team-other t [] a = refl
put_team-other t (u ∷ ts) a = ground (arith, put_team-other t ts)

put_team-found :
    (org tid : ℕ) (t : Team) (ts : List Team)
    → IsDistinct ts
    → find_team org tid ts ≡ some t
    → put_team t ts ≡ ts
unfolding find_team put_team
put_team-found org tid t [] d h = refl
put_team-found org tid t (u ∷ ts) d h =
    elim (Bool-cases (u.id == tid && u.organization_id == org)) [
      | inl x ↦
          let e : u ≡ t = ground arith in
          let f : put_team u ts ≡ ts = put_team-other u ts (All-map (λ v p. p.0) ts d.0) in
          subst (λ v. put_team v (u ∷ ts) ≡ u ∷ ts) e (ground arith)
      | inr x ↦
          let later : find_team org tid ts ≡ some t = ground arith in
          let f : put_team t ts ≡ ts = put_team-found org tid t ts d.1 later in
          let g = (find_team-All _ org tid t ts d.0 later).0 in ground arith
    ]

clear_last-stranger :
    (tid uid : ℕ) (t : Team) (ms : List TeamMember)
    → t.id ≡ tid
    → is_pointed ms t ≡ true
    → has_member tid uid ms ≡ false
    → clear_last uid t ≡ t
unfolding is_pointed
clear_last-stranger tid uid t ms e p h = elim (Option-cases t.last_assigned_user_id) [
  | inl x ↦ ground arith
  | inr (u, x) ↦ elim (Bool-cases (u == uid)) [
    | inl y ↦
        let eu : u ≡ uid = ground arith in
        let q : has_member t.id u ms ≡ true = ground arith in
        let q' : has_member tid uid ms ≡ true = rw (sym e, sym eu) q in absurd (ground arith)
    | inr y ↦ ground arith
  ]
]

-- In well-formed tables, after `add_member` succeeded, `remove_member` of the same user from the same
-- team succeeds too and leaves all the tables exactly as they were before both.
pub add_member-remove_member :
    (org tid uid : ℕ) (s : TeamTables) (out : TeamMemberOut) (s1 : TeamTables)
    → IsWellFormed s
    → add_member org tid uid s ≡ returns (out, s1)
    → remove_member org tid uid s1 ≡ returns s
unfolding remove_member get_team
add_member-remove_member org tid uid s out s1 w h =
    let (e, free, (t, found)) = add_member-written org tid uid s out s1 h in
    let (ei, eo) = find_team-found org tid t s.teams found in
    let stays =
      clear_last-stranger tid uid t s.members ei (find_team-All _ org tid t s.teams w.pointed found)
        free in
    let same = put_team-found org tid t s.teams w.distinct found in
    let there : has_member tid uid (s.members ++ membership tid uid ∷ []) ≡ true =
      has_member-snoc tid uid tid uid s.members ∙ ground arith in
    let back = drop_member-snoc tid uid s.members free in
    rw (e, found, get_team, remove_member) (rw there (rw (stays, same, back) refl))
