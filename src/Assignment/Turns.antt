-- ===== src/Assignment/Turns.antt =====
-- Round robin: successive calls go through the candidates in order, and round.
use ai_customer_support_plat.Prelude.{
  subst, ℕ, zero, suc, ◌+◌, ◌%◌, ◌<◌, ◌≡◌, ◌∙◌, refl, sym, ap, Bool, true, false, not, ◌&&◌, List,
  [], ◌∷◌, Option, none, some, Table, opt_eq, is_some, length, All, Text, arith, Bool-cases,
  Option-cases, inl, inr,
}
use native.Mathlib.Nat.{mod-lt, mod-add-mod}
use ai_customer_support_plat.Domain.{Conversation, Team, AgentAvailability, Db}
use ai_customer_support_plat.Assignment.Rotation.{
  is_eligible, row_is, get_team, member_ids, eligible_ids, sorted_set, next_id, candidates,
  get_elem?, find_available_agent,
}
use ai_customer_support_plat.Assignment.Order.{
  get_elem?-some, IsAscending, sorted_set-IsAscending, next_id-get_elem?,
}
use ai_customer_support_plat.Assignment.Writes.{
  plus, minus, adjust_active_count, publish_assigned, write_conversation, set_user, set_team,
  set_last, remember, get_conversation, row_refuses,
}
use ai_customer_support_plat.Assignment.Service.{
  TeamRef, by_id, move_user, assign_user, round_robin_in, assign_round_robin, resolve_team,
}
use ai_customer_support_plat.Assignment.Frame.{
  SameRoster, SameRoster-refl, SameRoster-trans, adjust-SameRoster, publish-SameRoster,
  write-SameRoster,
}

move_user-SameRoster :
    (cid org : ℕ) (old : Option ℕ) (u : ℕ) (db : Db) → SameRoster db (move_user cid org old u db)
unfolding move_user
move_user-SameRoster cid org old u db =
    let db1 = write_conversation cid (set_user (some u)) db in
    let db2 = adjust_active_count old (minus 1) db1 in
    let db3 = adjust_active_count (some u) (plus 1) db2 in
    SameRoster-trans db db1 (publish_assigned cid org db3)
      (write-SameRoster cid (set_user (some u)) db (λ x. refl))
      (SameRoster-trans db1 db2 (publish_assigned cid org db3) (adjust-SameRoster old (minus 1) db1)
        (SameRoster-trans db2 db3 (publish_assigned cid org db3)
          (adjust-SameRoster (some u) (plus 1) db2) (publish-SameRoster cid org db3)))

pub assign_user-SameRoster :
    (cid org u : ℕ) (off aw skip : Bool) (db : Db)
    → SameRoster db (assign_user cid org u off aw skip db).1
unfolding assign_user
assign_user-SameRoster cid org u off aw skip db =
    elim (Option-cases (get_conversation cid org db)) [
      | inl missing ↦ rw (missing, assign_user) (SameRoster-refl db)
      | inr (conv, e) ↦ elim (Bool-cases (opt_eq conv.assigned_user_id (some u))) [
        | inl same ↦ rw (e, assign_user) (rw same (SameRoster-refl db))
        | inr other ↦ elim (Bool-cases (not skip && row_refuses off aw (db.availability u))) [
          | inl refused ↦ rw (e, assign_user) (rw (other, refused) (SameRoster-refl db))
          | inr accepted ↦
              rw (e, assign_user)
                (rw (other, accepted) (move_user-SameRoster cid org conv.assigned_user_id u db))
        ]
      ]
    ]

eligible_ids-ext :
    (off aw : Bool) (r q : Table AgentAvailability) (ids : List ℕ)
    → ((v : ℕ) → row_is (is_eligible off aw) (r v) ≡ row_is (is_eligible off aw) (q v))
    → eligible_ids off aw r ids ≡ eligible_ids off aw q ids
unfolding eligible_ids
eligible_ids-ext off aw r q [] h = refl
eligible_ids-ext off aw r q (x ∷ xs) h = rw (h x, eligible_ids-ext off aw r q xs h)

candidates-ext :
    (off aw : Bool) (tid : ℕ) (db db' : Db)
    → db'.members ≡ db.members
    → ((v : ℕ)
        → row_is (is_eligible off aw) (db'.availability v)
          ≡ row_is (is_eligible off aw) (db.availability v))
    → candidates off aw tid db' ≡ candidates off aw tid db
unfolding candidates
candidates-ext off aw tid db db' m r = rw m (
    ap sorted_set
      (eligible_ids-ext off aw db'.availability db.availability (member_ids tid db.members) r))

get_team-set_last :
    (tid u : ℕ) (ts : List Team) (t : Team)
    → get_team tid ts ≡ some t
    → get_team tid (set_last tid u ts) ≡ some (record t { last_assigned_user_id = some u })
unfolding get_team set_last
get_team-set_last tid u [] t h = absurd (cc)
get_team-set_last tid u (x ∷ ts) t h = ground (arith, get_team-set_last tid u ts t)

-- The team's last assignee is the `i`th of its candidates.
pub record IsTurn (off aw : Bool) (tid : ℕ) (xs : List ℕ) (i : ℕ) (db : Db) : Type 0 where
  pub team : Team
  pub last : ℕ
  pub found : get_team tid db.teams ≡ some team
  pub pointed : team.last_assigned_user_id ≡ some last
  pub roster : candidates off aw tid db ≡ xs
  pub placed : get_elem? xs i ≡ some last

abbrev pub next_turn : List ℕ → ℕ → ℕ
next_turn xs i = (i + 1) % length xs

get_team-id : (tid : ℕ) (ts : List Team) (t : Team) → get_team tid ts ≡ some t → t.id ≡ tid
unfolding get_team
get_team-id tid [] t h = absurd (cc)
get_team-id tid (x ∷ ts) t h = ground (arith, get_team-id tid ts t)

candidates-IsAscending :
    (off aw : Bool) (tid : ℕ) (db : Db) → IsAscending (candidates off aw tid db)
unfolding candidates
candidates-IsAscending off aw tid db =
    sorted_set-IsAscending (eligible_ids off aw db.availability (member_ids tid db.members))

module _ (off aw : Bool) (tid : ℕ) (xs : List ℕ) (i : ℕ) (db : Db) where
  next_id-IsTurn :
      (t : IsTurn off aw tid xs i db)
      → next_id t.team.last_assigned_user_id (candidates off aw tid db)
        ≡ get_elem? xs (next_turn xs i)
  next_id-IsTurn t =
      rw (t.pointed, t.roster)
        (next_id-get_elem? xs i t.last
          (subst IsAscending t.roster (candidates-IsAscending off aw tid db)) t.placed)

  find-next :
      IsTurn off aw tid xs i db → find_available_agent off aw tid db ≡ get_elem? xs (next_turn xs i)
  unfolding find_available_agent
  find-next t = rw (t.found, find_available_agent) (next_id-IsTurn t)

  remember-IsTurn :
      (a : ℕ) (db' : Db)
      → IsTurn off aw tid xs i db
      → SameRoster db db'
      → get_elem? xs (next_turn xs i) ≡ some a
      → IsTurn off aw tid xs (next_turn xs i) (remember tid a db')
  remember-IsTurn a db' t s e = record {
    team = record t.team { last_assigned_user_id = some a };
    last = a;
    found = rw s.teams (get_team-set_last tid a db.teams t.team t.found);
    pointed = refl;
    roster = candidates-ext off aw tid db (remember tid a db') s.members (s.rows off aw) ∙ t.roster;
    placed = e;
  }

-- The answers of successive calls, one for each conversation of the list.
unfoldable pub assign_each :
    (Text → TeamRef → Bool) → ℕ → ℕ → Bool → Bool → List ℕ → Db → List (Option ℕ)
assign_each name_matches org tid off aw [] db = []
assign_each name_matches org tid off aw (c ∷ cs) db =
    let (r, db') = assign_round_robin name_matches c org (by_id tid) off aw db in
    r ∷ assign_each name_matches org tid off aw cs db'

abbrev pub answer : List (Option ℕ) → ℕ → Option ℕ
answer [] k = none
answer (r ∷ rs) zero = r
answer (r ∷ rs) (suc k) = answer rs k

known_row : (o : Option Conversation) → is_some o ≡ true → (c : Conversation) × (o ≡ some c)
known_row none h = absurd (cc)
known_row (some c) h = (c, refl)

module _ (name_matches : Text → TeamRef → Bool) (org tid : ℕ) (off aw : Bool) (xs : List ℕ) where
  round_robin_in-IsTurn :
      (c i a : ℕ) (db : Db)
      → IsTurn off aw tid xs i db
      → get_elem? xs (next_turn xs i) ≡ some a
      → let db' = (round_robin_in name_matches c org tid off aw (some a) db).1 in
        IsTurn off aw tid xs (next_turn xs i) db'
        × ((d : ℕ) → is_some (get_conversation d org db') ≡ is_some (get_conversation d org db))
  unfolding round_robin_in get_conversation
  round_robin_in-IsTurn c i a db t e =
      let db1 = (assign_user c org a off aw false db).1 in
      let db2 = write_conversation c (set_team (some tid)) db1 in
      let s =
        SameRoster-trans db db1 db2 (assign_user-SameRoster c org a off aw false db)
          (write-SameRoster c (set_team (some tid)) db1 (λ x. refl)) in
      (remember-IsTurn off aw tid xs i db a db2 t s e, λ d. s.known org d)

  step-turn :
      (c i a : ℕ) (conv : Conversation) (db : Db)
      → IsTurn off aw tid xs i db
      → get_conversation c org db ≡ some conv
      → get_elem? xs (next_turn xs i) ≡ some a
      → assign_round_robin name_matches c org (by_id tid) off aw db
        ≡ round_robin_in name_matches c org tid off aw (some a) db
  unfolding assign_round_robin resolve_team
  step-turn c i a conv db t e p =
      rw (e, assign_round_robin)
        (rw (t.found, resolve_team)
          (rw (get_team-id tid db.teams t.team t.found, find-next off aw tid xs i db t, p)))

  placed-lt : (ys : List ℕ) (i a : ℕ) → get_elem? ys i ≡ some a → 0 < length ys
  unfolding get_elem?
  placed-lt [] i a h = absurd (cc)
  placed-lt (y ∷ ys) i a h = omega arith

  next-placed :
      (i : ℕ) (db : Db)
      → IsTurn off aw tid xs i db
      → (a : ℕ) × (get_elem? xs (next_turn xs i) ≡ some a)
  next-placed i db t =
      get_elem?-some xs (next_turn xs i) (mod-lt (i + 1) (placed-lt xs i t.last t.placed))

  shift : (n i k : ℕ) → ((i + 1) % n + 1 + k) % n ≡ (i + 1 + suc k) % n
  shift n i k =
      ap (λ m. m % n) (omega arith) ∙ mod-add-mod (i + 1) n (1 + k) ∙ ap (λ m. m % n) (omega arith)

  All-known :
      (cs : List ℕ) (db db' : Db)
      → ((d : ℕ) → is_some (get_conversation d org db') ≡ is_some (get_conversation d org db))
      → All (λ c. is_some (get_conversation c org db) ≡ true) cs
      → All (λ c. is_some (get_conversation c org db') ≡ true) cs
  All-known [] db db' same h = tt
  All-known (c ∷ cs) db db' same h = (same c ∙ h.0, All-known cs db db' same h.1)

  round_robin_in-answer :
      (c a : ℕ) (db : Db) → (round_robin_in name_matches c org tid off aw (some a) db).0 ≡ some a
  unfolding round_robin_in
  round_robin_in-answer c a db = refl

  -- When the team's last assignee is the candidate at place `i`, the `k`th of any number of calls of
  -- `assign_round_robin` in a row, each on a conversation of the organisation, answers with the
  -- candidate at place `i + 1 + k`, counted round: every candidate has its turn, in order.
  pub assign_each-turns :
      (cs : List ℕ) (i k : ℕ) (db : Db)
      → IsTurn off aw tid xs i db
      → All (λ c. is_some (get_conversation c org db) ≡ true) cs
      → k < length cs
      → answer (assign_each name_matches org tid off aw cs db) k
        ≡ get_elem? xs ((i + 1 + k) % length xs)
  unfolding assign_each
  assign_each-turns [] i k db t known h = absurd (omega arith)
  assign_each-turns (c ∷ cs) i zero db t known h =
      let (a, p) = next-placed i db t in
      let (conv, e) = known_row (get_conversation c org db) known.0 in
      ap (λ r. r.0) (step-turn c i a conv db t e p)
      ∙ round_robin_in-answer c a db
      ∙ sym p
      ∙ ap (λ m. get_elem? xs (m % length xs)) (omega arith)
  assign_each-turns (c ∷ cs) i (suc k) db t known h =
      let (a, p) = next-placed i db t in
      let (conv, e) = known_row (get_conversation c org db) known.0 in
      let (t', same) = round_robin_in-IsTurn c i a db t p in
      let db' = (round_robin_in name_matches c org tid off aw (some a) db).1 in
      ap (λ r. answer (assign_each name_matches org tid off aw cs r.1) k)
        (step-turn c i a conv db t e p)
      ∙ assign_each-turns cs (next_turn xs i) k db' t' (All-known cs db db' same known.1)
          (omega arith)
      ∙ ap (get_elem? xs) (shift (length xs) i k)
