-- ===== src/Teams/Members.antt =====
-- Rows of members: what adding and deleting them keeps.
use ai_customer_support_plat.Prelude.{
  ℕ, ◌≡◌, refl, sym, inl, inr, Bool, true, false, not, ◌&&◌, ◌||◌, List, [], ◌∷◌, ◌++◌, Option,
  none, some, ◌==◌, filter_by, arith, All, Option-cases, Bool-cases,
}
use ai_customer_support_plat.Domain.{Team, TeamMember, Conversation, Ticket}
use ai_customer_support_plat.Teams.Service.{
  is_membership, has_member, drop_member, count_conversations, count_tickets,
}
use ai_customer_support_plat.Teams.Rows.{has_team, has_team-delete, is_pointed, IsJoinedOnce}

abbrev pub membership : ℕ → ℕ → TeamMember
membership tid uid = record { team_id = tid; user_id = uid }

pub has_member-snoc :
    (tid uid i u : ℕ) (ms : List TeamMember)
    → has_member i u (ms ++ membership tid uid ∷ []) ≡ (has_member i u ms || (tid == i && uid == u))
unfolding has_member
has_member-snoc tid uid i u [] = ground arith
has_member-snoc tid uid i u (m ∷ ms) = ground (arith, has_member-snoc tid uid i u ms)

pub has_member-delete :
    (j i u : ℕ) (ms : List TeamMember)
    → has_member i u (filter_by (λ (m : TeamMember). not (m.team_id == j)) ms)
      ≡ (has_member i u ms && not (i == j))
unfolding has_member
has_member-delete j i u [] = refl
has_member-delete j i u (m ∷ ms) = ground (arith, has_member-delete j i u ms)

pub has_member-drop :
    (tid uid i u : ℕ) (ms : List TeamMember)
    → IsJoinedOnce ms
    → has_member i u (drop_member tid uid ms) ≡ (has_member i u ms && not (tid == i && uid == u))
unfolding has_member drop_member
has_member-drop tid uid i u [] d = refl
has_member-drop tid uid i u (m ∷ ms) d = elim (Bool-cases (is_membership tid uid m)) [
  | inl x ↦
      let et : m.team_id ≡ tid = ground arith in
      let eu : m.user_id ≡ uid = ground arith in
      let free : has_member tid uid ms ≡ false = rw (sym et, sym eu) d.0 in
      elim (Bool-cases (tid == i && uid == u)) [
        | inl y ↦
            let ei : tid ≡ i = ground arith in
            let ej : uid ≡ u = ground arith in
            let none_left : has_member i u ms ≡ false = rw (sym ei, sym ej) free in ground arith
        | inr y ↦ ground arith
      ]
  | inr x ↦ ground (arith, has_member-drop tid uid i u ms)
]

pub IsJoinedOnce-snoc :
    (tid uid : ℕ) (ms : List TeamMember)
    → IsJoinedOnce ms
    → has_member tid uid ms ≡ false
    → IsJoinedOnce (ms ++ membership tid uid ∷ [])
unfolding has_member
IsJoinedOnce-snoc tid uid [] d h = (refl, tt)
IsJoinedOnce-snoc tid uid (m ∷ ms) d h = (
  ground (arith, has_member-snoc tid uid m.team_id m.user_id ms),
  IsJoinedOnce-snoc tid uid ms d.1 (ground arith),
)

pub IsJoinedOnce-drop :
    (tid uid : ℕ) (ms : List TeamMember) → IsJoinedOnce ms → IsJoinedOnce (drop_member tid uid ms)
unfolding drop_member
IsJoinedOnce-drop tid uid [] d = tt
IsJoinedOnce-drop tid uid (m ∷ ms) d = elim (Bool-cases (is_membership tid uid m)) [
  | inl x ↦ rw (x, drop_member) d.1
  | inr x ↦
      rw (x, drop_member)
        (
          ground (arith, has_member-drop tid uid m.team_id m.user_id ms d.1),
          IsJoinedOnce-drop tid uid ms d.1,
        )
]

pub IsJoinedOnce-delete :
    (j : ℕ) (ms : List TeamMember)
    → IsJoinedOnce ms
    → IsJoinedOnce (filter_by (λ (m : TeamMember). not (m.team_id == j)) ms)
IsJoinedOnce-delete j [] d = tt
IsJoinedOnce-delete j (m ∷ ms) d = elim (Bool-cases (m.team_id == j)) [
  | inl x ↦ rw x (IsJoinedOnce-delete j ms d.1)
  | inr x ↦
      rw x
        (ground (arith, has_member-delete j m.team_id m.user_id ms), IsJoinedOnce-delete j ms d.1)
]

pub drop_member-All :
    (P : TeamMember → Type 0) (tid uid : ℕ) (ms : List TeamMember)
    → All P ms
    → All P (drop_member tid uid ms)
unfolding drop_member
drop_member-All P tid uid [] a = tt
drop_member-All P tid uid (m ∷ ms) a = elim (Bool-cases (is_membership tid uid m)) [
  | inl x ↦ rw (x, drop_member) a.1
  | inr x ↦ rw (x, drop_member) (a.0, drop_member-All P tid uid ms a.1)
]

pub is_pointed-weaken :
    (ms ms' : List TeamMember)
    → ((i u : ℕ) → has_member i u ms ≡ true → has_member i u ms' ≡ true)
    → (t : Team) → is_pointed ms t ≡ true
    → is_pointed ms' t ≡ true
unfolding is_pointed
is_pointed-weaken ms ms' f t h = elim (Option-cases t.last_assigned_user_id) [
  | inl x ↦ rw (x, is_pointed) refl
  | inr (u, x) ↦
      let g : has_member t.id u ms ≡ true = ground arith in rw (x, is_pointed) (f t.id u g)
]

-- What deleting a team does to the references to teams.
abbrev pub refers : Option ℕ → List Team → Bool
refers none ts = true
refers (some i) ts = has_team i ts

pub members-delete :
    (j : ℕ) (ts : List Team) (ms : List TeamMember)
    → All (λ (m : TeamMember). has_team m.team_id ts ≡ true) ms
    → All
        (λ (m : TeamMember).
          has_team m.team_id (filter_by (λ (t : Team). not (t.id == j)) ts) ≡ true)
        (filter_by (λ (m : TeamMember). not (m.team_id == j)) ms)
members-delete j ts [] a = tt
members-delete j ts (m ∷ ms) a = elim (Bool-cases (m.team_id == j)) [
  | inl x ↦ rw x (members-delete j ts ms a.1)
  | inr x ↦ rw x (ground (arith, has_team-delete m.team_id j ts), members-delete j ts ms a.1)
]

pub teams-delete :
    (j : ℕ) (ms : List TeamMember) (ts : List Team)
    → All (λ (t : Team). is_pointed ms t ≡ true) ts
    → All
        (λ (t : Team).
          is_pointed (filter_by (λ (m : TeamMember). not (m.team_id == j)) ms) t ≡ true)
        (filter_by (λ (t : Team). not (t.id == j)) ts)
unfolding is_pointed
teams-delete j ms [] a = tt
teams-delete j ms (t ∷ ts) a = elim (Bool-cases (t.id == j)) [
  | inl x ↦ rw x (teams-delete j ms ts a.1)
  | inr x ↦ elim (Option-cases t.last_assigned_user_id) [
    | inl y ↦ rw (x) (ground arith, teams-delete j ms ts a.1)
    | inr (u, y) ↦ rw (x) (ground (arith, has_member-delete j t.id u ms), teams-delete j ms ts a.1)
  ]
]

pub conversations-delete :
    (j : ℕ) (ts : List Team) (cs : List Conversation)
    → count_conversations j cs ≡ 0
    → All (λ (c : Conversation). refers c.assigned_team_id ts ≡ true) cs
    → All
        (λ (c : Conversation).
          refers c.assigned_team_id (filter_by (λ (t : Team). not (t.id == j)) ts) ≡ true)
        cs
unfolding count_conversations
conversations-delete j ts [] h a = tt
conversations-delete j ts (c ∷ cs) h a = elim (Option-cases c.assigned_team_id) [
  | inl x ↦ (ground arith, conversations-delete j ts cs (ground arith) a.1)
  | inr (i, x) ↦
      (ground (arith, has_team-delete i j ts), conversations-delete j ts cs (ground arith) a.1)
]

pub tickets-delete :
    (j : ℕ) (ts : List Team) (rows : List Ticket)
    → count_tickets j rows ≡ 0
    → All (λ (r : Ticket). refers r.assigned_team_id ts ≡ true) rows
    → All
        (λ (r : Ticket).
          refers r.assigned_team_id (filter_by (λ (t : Team). not (t.id == j)) ts) ≡ true)
        rows
unfolding count_tickets
tickets-delete j ts [] h a = tt
tickets-delete j ts (c ∷ cs) h a = elim (Option-cases c.assigned_team_id) [
  | inl x ↦ (ground arith, tickets-delete j ts cs (ground arith) a.1)
  | inr (i, x) ↦ (ground (arith, has_team-delete i j ts), tickets-delete j ts cs (ground arith) a.1)
]
