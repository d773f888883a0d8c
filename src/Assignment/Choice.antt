-- ===== src/Assignment/Choice.antt =====
-- Who `find_available_agent` chooses, and when it finds nobody.
use ai_customer_support_plat.Prelude.{
  ℕ, ◌≡◌, inl, inr, Bool, true, List, [], ◌∷◌, Option, none, some, filter_by, In, arith, Bool-cases,
  Option-cases,
}
use ai_customer_support_plat.Domain.{Team, Db}
use ai_customer_support_plat.Assignment.Rotation.{
  is_eligible, row_is, get_team, member_ids, eligible_ids, next_id, candidates,
  find_available_agent,
}
use ai_customer_support_plat.Assignment.Order.{
  In-sorted_set, sorted_set-In, next_id-In, next_id-some,
}

In-filter_by : (p : ℕ → Bool) (a : ℕ) (xs : List ℕ) → In a (filter_by p xs) → In a xs × (p a ≡ true)
In-filter_by p a [] h = absurd h
In-filter_by p a (x ∷ xs) h = elim (Bool-cases (p x)) [
  | inl kept ↦ elim (rw kept at h) [
    | inl e ↦ (inl e, rw e kept)
    | inr m ↦ (inr (In-filter_by p a xs m).0, (In-filter_by p a xs m).1)
  ]
  | inr dropped ↦ let m = In-filter_by p a xs (rw dropped at h) in (inr m.0, m.1)
]

filter_by-In : (p : ℕ → Bool) (a : ℕ) (xs : List ℕ) → In a xs → p a ≡ true → In a (filter_by p xs)
filter_by-In p a [] h e = absurd h
filter_by-In p a (x ∷ xs) h e = ground (arith, filter_by-In p a xs)

module _ (off aw : Bool) (tid : ℕ) (db : Db) where
  -- A member of the team whose availability row is eligible.
  abbrev pub IsCandidate : ℕ → Type 0
  IsCandidate a =
      In a (member_ids tid db.members) × (row_is (is_eligible off aw) (db.availability a) ≡ true)

  pub candidates-IsCandidate : (a : ℕ) → In a (candidates off aw tid db) → IsCandidate a
  unfolding candidates
  candidates-IsCandidate a h =
      In-filter_by (λ u. row_is (is_eligible off aw) (db.availability u)) a
        (member_ids tid db.members)
        (In-sorted_set a (eligible_ids off aw db.availability (member_ids tid db.members)) h)

  pub IsCandidate-candidates : (a : ℕ) → IsCandidate a → In a (candidates off aw tid db)
  unfolding candidates
  IsCandidate-candidates a h =
      sorted_set-In a (eligible_ids off aw db.availability (member_ids tid db.members)) (
        filter_by-In (λ u. row_is (is_eligible off aw) (db.availability u)) a
          (member_ids tid db.members) h.0 h.1)

  pub find-IsCandidate : (a : ℕ) → find_available_agent off aw tid db ≡ some a → IsCandidate a
  unfolding find_available_agent
  find-IsCandidate a h = elim (Option-cases (get_team tid db.teams)) [
    | inl missing ↦ absurd (ground arith)
    | inr (team, e) ↦
        candidates-IsCandidate a
          (next_id-In team.last_assigned_user_id (candidates off aw tid db) a (ground arith))
  ]

  empty_of_none : (last : Option ℕ) (xs : List ℕ) → next_id last xs ≡ none → (a : ℕ) → In a xs → ⊥
  empty_of_none last [] h a m = m
  empty_of_none last (x ∷ xs) h a m = next_id-some last x xs h

  pub find-none :
      (team : Team) (a : ℕ)
      → get_team tid db.teams ≡ some team
      → find_available_agent off aw tid db ≡ none
      → ¬ (IsCandidate a)
  unfolding find_available_agent
  find-none team a e h c =
      empty_of_none team.last_assigned_user_id (candidates off aw tid db) (ground arith) a
        (IsCandidate-candidates a c)

-- A candidate, or nobody where the team has no candidate.
abbrev pub IsSound : Bool → Bool → ℕ → Db → Option ℕ → Type 0
IsSound off aw tid db none = (a : ℕ) → ¬ (IsCandidate off aw tid db a)
IsSound off aw tid db (some a) = IsCandidate off aw tid db a

-- For a team that exists, the agent that is found is a member of that team with an eligible
-- availability row, and nobody is found only when no member of the team has one.
pub find_available_agent-IsSound :
    (off aw : Bool) (tid : ℕ) (db : Db) (team : Team)
    → get_team tid db.teams ≡ some team
    → IsSound off aw tid db (find_available_agent off aw tid db)
find_available_agent-IsSound off aw tid db team e =
    elim (Option-cases (find_available_agent off aw tid db)) [
      | inl h ↦ rw h (λ a. find-none off aw tid db team a e h)
      | inr (a, h) ↦ rw h (find-IsCandidate off aw tid db a h)
    ]
