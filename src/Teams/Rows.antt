-- ===== src/Teams/Rows.antt =====
-- Rows of teams and members: what the lookups find, and what writing, adding and deleting rows keeps.
use ai_customer_support_plat.Prelude.{
  ℕ, ◌≡◌, ◌≢◌, ◌∙◌, ◌⊎◌, refl, sym, subst, inl, inr, Bool, true, false, not, ◌&&◌, ◌||◌, List, [],
  ◌∷◌, ◌++◌, none, some, ◌==◌, any, filter_by, text_eq, text_eq_iff, lower, arith, All, All-snoc,
  All-map, All-filter_by, Bool-cases,
}
use ai_customer_support_plat.Domain.{Team, TeamMember}
use ai_customer_support_plat.Teams.Service.{find_team, is_taken, put_team, has_member}

-- One organisation's teams of one name, up to case.
abbrev pub same_name : Team → Team → Bool
same_name t u = t.organization_id == u.organization_id && text_eq (lower t.name) (lower u.name)

abbrev pub Differs : Team → Team → Type 0
Differs t u = (u.id ≢ t.id) × (same_name t u ≡ false)

-- No two teams share an identifier, or an organisation and a name up to case.
abbrev pub IsDistinct : List Team → Type 0
IsDistinct [] = Unit
IsDistinct (t ∷ ts) = All (Differs t) ts × IsDistinct ts

unfoldable pub has_team : ℕ → List Team → Bool
has_team i ts = any (λ (t : Team). t.id == i) ts

-- The team's last assignee, if any, is one of its members.
unfoldable pub is_pointed : List TeamMember → Team → Bool
is_pointed ms t = elim t.last_assigned_user_id [ none ↦ true | some u ↦ has_member t.id u ms ]

-- No one is twice a member of one team.
abbrev pub IsJoinedOnce : List TeamMember → Type 0
IsJoinedOnce [] = Unit
IsJoinedOnce (m ∷ ms) = (has_member m.team_id m.user_id ms ≡ false) × IsJoinedOnce ms

pub same_name-sym : (t u : Team) → same_name t u ≡ same_name u t
same_name-sym t u = elim (Bool-cases (text_eq (lower t.name) (lower u.name))) [
  | inl x ↦
      ground (
        arith,
        text_eq_iff (lower t.name) (lower u.name),
        text_eq_iff (lower u.name) (lower t.name),
      )
  | inr x ↦
      ground (
        arith,
        text_eq_iff (lower t.name) (lower u.name),
        text_eq_iff (lower u.name) (lower t.name),
      )
]

pub All-put :
    (P : Team → Type 0) (u : Team) (ts : List Team) → All P ts → P u → All P (put_team u ts)
unfolding put_team
All-put P u [] a p = tt
All-put P u (t ∷ ts) a p = elim (Bool-cases (t.id == u.id)) [
  | inl x ↦ rw (x, put_team) (p, All-put P u ts a.1 p)
  | inr x ↦ rw (x, put_team) (a.0, All-put P u ts a.1 p)
]

pub All-replaced :
    (P : Team → Type 0) (u : Team) (ts : List Team)
    → All (λ (v : Team). (v.id ≡ u.id) ⊎ P v) ts
    → P u
    → All P (put_team u ts)
unfolding put_team
All-replaced P u [] a p = tt
All-replaced P u (t ∷ ts) a p = elim (Bool-cases (t.id == u.id)) [
  | inl x ↦ rw (x, put_team) (p, All-replaced P u ts a.1 p)
  | inr x ↦
      let q : P t = elim a.0 [ inl e ↦ absurd (ground arith) | inr q ↦ q ] in
      rw (x, put_team) (q, All-replaced P u ts a.1 p)
]

pub find_team-found :
    (org tid : ℕ) (t : Team) (ts : List Team)
    → find_team org tid ts ≡ some t
    → (t.id ≡ tid) × (t.organization_id ≡ org)
unfolding find_team
find_team-found org tid t [] h = absurd (ground arith)
find_team-found org tid t (u ∷ ts) h = ground (arith, find_team-found org tid t ts)

pub find_team-All :
    (P : Team → Type 0) (org tid : ℕ) (t : Team) (ts : List Team)
    → All P ts
    → find_team org tid ts ≡ some t
    → P t
unfolding find_team
find_team-All P org tid t [] a h = absurd (ground arith)
find_team-All P org tid t (u ∷ ts) a h =
    elim (Bool-cases (u.id == tid && u.organization_id == org)) [
      | inl x ↦ let e : u ≡ t = ground arith in subst P e a.0
      | inr x ↦ find_team-All P org tid t ts a.1 (ground arith)
    ]

pub has_team-snoc :
    (i : ℕ) (u : Team) (ts : List Team) → has_team i (ts ++ u ∷ []) ≡ (has_team i ts || u.id == i)
unfolding has_team
has_team-snoc i u [] = ground arith
has_team-snoc i u (t ∷ ts) = ground (arith, has_team-snoc i u ts)

pub has_team-put : (i : ℕ) (u : Team) (ts : List Team) → has_team i (put_team u ts) ≡ has_team i ts
unfolding has_team put_team
has_team-put i u [] = refl
has_team-put i u (t ∷ ts) = ground (arith, has_team-put i u ts)

pub has_team-delete :
    (i j : ℕ) (ts : List Team)
    → has_team i (filter_by (λ (t : Team). not (t.id == j)) ts) ≡ (has_team i ts && not (i == j))
unfolding has_team
has_team-delete i j [] = refl
has_team-delete i j (t ∷ ts) = ground (arith, has_team-delete i j ts)

pub IsDistinct-snoc :
    (u : Team) (ts : List Team)
    → IsDistinct ts
    → has_team u.id ts ≡ false
    → is_taken u.organization_id (lower u.name) none ts ≡ false
    → IsDistinct (ts ++ u ∷ [])
unfolding has_team is_taken
IsDistinct-snoc u [] d f n = (tt, tt)
IsDistinct-snoc u (t ∷ ts) d f n = (
  All-snoc (Differs t) ts u d.0 (ground arith, ground arith),
  IsDistinct-snoc u ts d.1 (ground arith) (ground arith),
)

pub IsDistinct-filter :
    (p : Team → Bool) (ts : List Team) → IsDistinct ts → IsDistinct (filter_by p ts)
IsDistinct-filter p [] d = tt
IsDistinct-filter p (t ∷ ts) d = elim (Bool-cases (p t)) [
  | inl x ↦ rw x (All-filter_by (Differs t) p ts d.0, IsDistinct-filter p ts d.1)
  | inr x ↦ rw x (IsDistinct-filter p ts d.1)
]

-- Every other team has another name.
abbrev pub Frees : Team → Team → Type 0
Frees u v = (v.id ≡ u.id) ⊎ (same_name u v ≡ false)

put_team-absent :
    (u : Team) (ts : List Team) → All (λ (v : Team). v.id ≢ u.id) ts → put_team u ts ≡ ts
unfolding put_team
put_team-absent u [] a = refl
put_team-absent u (t ∷ ts) a = ground (arith, put_team-absent u ts)

Frees-Differs :
    (u : Team) (ts : List Team)
    → All (λ (v : Team). v.id ≢ u.id) ts
    → All (Frees u) ts
    → All (Differs u) ts
Frees-Differs u [] a f = tt
Frees-Differs u (t ∷ ts) a f = (ground arith, Frees-Differs u ts a.1 f.1)

pub IsDistinct-put :
    (u : Team) (ts : List Team) → IsDistinct ts → All (Frees u) ts → IsDistinct (put_team u ts)
unfolding put_team
IsDistinct-put u [] d f = tt
IsDistinct-put u (t ∷ ts) d f = elim (Bool-cases (t.id == u.id)) [
  | inl x ↦
      let e : t.id ≡ u.id = ground arith in
      let others : All (λ (v : Team). v.id ≢ u.id) ts = All-map (λ v p q. p.0 (q ∙ sym e)) ts d.0 in
      rw (x, put_team, put_team-absent u ts others) (Frees-Differs u ts others f.1, d.1)
  | inr x ↦
      rw (x, put_team)
        (
          All-put (Differs t) u ts d.0 (ground arith, ground (arith, same_name-sym t u)),
          IsDistinct-put u ts d.1 f.1,
        )
]
