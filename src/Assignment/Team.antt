-- ===== src/Assignment/Team.antt =====
-- What `ensure_assignee_for_team` establishes.
use ai_customer_support_plat.Prelude.{
  ℕ, ◌≡◌, ◌≢◌, ◌∙◌, ◌⊎◌, inl, inr, refl, sym, ap, subst, Bool, true, false, List, [], ◌∷◌, Option,
  none, some, Table, put_self, put-ne, In, All, arith, Bool-cases, Option-cases,
}
use ai_customer_support_plat.Domain.{Conversation, Team, Ticket, Db}
use ai_customer_support_plat.Assignment.Rotation.{get_team, member_ids, find_available_agent}
use ai_customer_support_plat.Assignment.Choice.{IsCandidate, find-IsCandidate, find-none}
use ai_customer_support_plat.Assignment.Writes.{
  Delta, plus, minus, adjust_active_count, publish_assigned, write_conversation, set_user,
  get_conversation, own_row, is_synced, sync_rows,
}
use ai_customer_support_plat.Assignment.Service.{take_next, release, choose_assignee}
use ai_customer_support_plat.Assignment.Frame.{
  SameRoster, SameRoster-refl, SameRoster-trans, adjust-SameRoster, write-SameRoster,
}

-- The row of the conversation has this team and this user.
abbrev pub IsAssigned : ℕ → Option ℕ → Option ℕ → Table Conversation → Type 0
IsAssigned cid team user t =
    (c : Conversation) × (t cid ≡ some c)
    × (c.assigned_team_id ≡ team)
    × (c.assigned_user_id ≡ user)

pub adjust-conversations :
    (u : Option ℕ) (d : Delta) (db : Db)
    → (adjust_active_count u d db).conversations ≡ db.conversations
unfolding adjust_active_count
adjust-conversations none d db = refl
adjust-conversations (some u) d db = ground arith

pub adjust-tickets :
    (u : Option ℕ) (d : Delta) (db : Db) → (adjust_active_count u d db).tickets ≡ db.tickets
unfolding adjust_active_count
adjust-tickets none d db = refl
adjust-tickets (some u) d db = ground arith

pub publish-conversations :
    (cid org : ℕ) (db : Db) → (publish_assigned cid org db).conversations ≡ db.conversations
unfolding publish_assigned
publish-conversations cid org db = ground arith

pub write_self :
    (cid : ℕ) (f : Conversation → Conversation) (db : Db) (c : Conversation)
    → db.conversations cid ≡ some c
    → (write_conversation cid f db).conversations cid ≡ some (f c)
unfolding write_conversation
write_self cid f db c e = rw (e, write_conversation) (put_self cid (f c) db.conversations)

pub write-other :
    (cid j : ℕ) (f : Conversation → Conversation) (db : Db)
    → j ≢ cid
    → (write_conversation cid f db).conversations j ≡ db.conversations j
unfolding write_conversation
write-other cid j f db h = elim (Option-cases (db.conversations cid)) [
  | inl missing ↦ rw (missing, write_conversation)
  | inr (c, e) ↦ rw (e, write_conversation) (put-ne cid j (f c) db.conversations h)
]

release-SameRoster : (cid : ℕ) (old : Option ℕ) (db : Db) → SameRoster db (release cid old db)
unfolding release
release-SameRoster cid none db = SameRoster-refl db
release-SameRoster cid (some u) db =
    SameRoster-trans db (write_conversation cid (set_user none) db) _
      (write-SameRoster cid (set_user none) db (λ x. refl))
      (adjust-SameRoster (some u) (minus 1) (write_conversation cid (set_user none) db))

release-row :
    (cid : ℕ) (old team : Option ℕ) (db : Db)
    → IsAssigned cid team old db.conversations
    → IsAssigned cid team none (release cid old db).conversations
unfolding release
release-row cid none team db h = h
release-row cid (some u) team db (c, e, t, _) = (
  set_user none c,
  ap (λ m. m cid)
        (adjust-conversations (some u) (minus 1) (write_conversation cid (set_user none) db))
      ∙ write_self cid (set_user none) db c e,
  t,
  refl,
)

take_next-row :
    (cid tid : ℕ) (found team user : Option ℕ) (db : Db)
    → IsAssigned cid team user db.conversations
    → ((take_next cid tid found db).0 ≡ found)
      × IsAssigned cid team found (take_next cid tid found db).1.conversations
unfolding take_next
take_next-row cid tid none team user db (c, e, t, _) =
    (refl, (set_user none c, write_self cid (set_user none) db c e, t, refl))
take_next-row cid tid (some a) team user db (c, e, t, _) = (
  refl,
  (
    set_user (some a) c,
    ap (λ m. m cid)
          (adjust-conversations (some a) (plus 1) (write_conversation cid (set_user (some a)) db))
        ∙ write_self cid (set_user (some a)) db c e,
    t,
    refl,
  ),
)

-- An online member of the team, or nobody if no member is online.
abbrev pub IsNext : ℕ → Db → Option ℕ → Type 0
IsNext tid db none = (a : ℕ) → ¬ (IsCandidate false false tid db a)
IsNext tid db (some a) = IsCandidate false false tid db a

pub IsCandidate-SameRoster :
    (tid a : ℕ) (db db' : Db)
    → SameRoster db db'
    → IsCandidate false false tid db' a
    → IsCandidate false false tid db a
IsCandidate-SameRoster tid a db db' s (m, e) =
    (subst (λ ms. In a (member_ids tid ms)) s.members m, sym (s.rows false false a) ∙ e)

pub SameRoster-IsCandidate :
    (tid a : ℕ) (db db' : Db)
    → SameRoster db db'
    → IsCandidate false false tid db a
    → IsCandidate false false tid db' a
SameRoster-IsCandidate tid a db db' s (m, e) =
    (subst (λ ms. In a (member_ids tid ms)) (sym s.members) m, s.rows false false a ∙ e)

pub IsNext-SameRoster :
    (tid : ℕ) (r : Option ℕ) (db db' : Db) → SameRoster db db' → IsNext tid db' r → IsNext tid db r
IsNext-SameRoster tid none db db' s h = λ a c. h a (SameRoster-IsCandidate tid a db db' s c)
IsNext-SameRoster tid (some a) db db' s h = IsCandidate-SameRoster tid a db db' s h

find-IsNext :
    (tid : ℕ) (found : Option ℕ) (team : Team) (db : Db)
    → get_team tid db.teams ≡ some team
    → find_available_agent false false tid db ≡ found
    → IsNext tid db found
find-IsNext tid none team db e h = λ a c. find-none false false tid db team a e h c
find-IsNext tid (some a) team db e h = find-IsCandidate false false tid db a h

module _ (cid tid : ℕ) (old : Option ℕ) (team : Team) (db : Db)
    (here : IsAssigned cid (some tid) old db.conversations)
    (found : get_team tid db.teams ≡ some team) where
  pub choose_assignee-post :
      (keep : Bool)
      → let (r, db') = choose_assignee cid tid keep old db in
        IsAssigned cid (some tid) r db'.conversations
        × (((keep ≡ true) × (r ≡ old)) ⊎ ((keep ≡ false) × IsNext tid db r))
  unfolding choose_assignee
  choose_assignee-post true = (here, inl (refl, refl))
  choose_assignee-post false =
      let db1 = release cid old db in
      let s = release-SameRoster cid old db in
      let row = release-row cid old (some tid) db here in
      let pick = find_available_agent false false tid db1 in
      let (same, row') = take_next-row cid tid pick (some tid) none db1 row in
      (
        subst (λ r. IsAssigned cid (some tid) r (take_next cid tid pick db1).1.conversations)
            (sym same) row',
        inr (
          refl,
          subst (IsNext tid db) (sym same) (
              IsNext-SameRoster tid pick db db1 s
                (find-IsNext tid pick team db1 (ap (get_team tid) s.teams ∙ found) refl)),
        ),
      )

own_row-eq :
    (org : ℕ) (o : Option Conversation) (c : Conversation)
    → own_row org o ≡ some c
    → (o ≡ some c) × (c.organization_id ≡ org)
own_row-eq org none c h = absurd (cc)
own_row-eq org (some d) c h = ground arith

pub get_conversation-row :
    (cid org : ℕ) (db : Db) (c : Conversation)
    → get_conversation cid org db ≡ some c
    → (db.conversations cid ≡ some c) × (c.organization_id ≡ org)
unfolding get_conversation
get_conversation-row cid org db c h = own_row-eq org (db.conversations cid) c h

-- Each ticket that the call syncs has this team and this user.
abbrev pub AreMirrored : (Ticket → Bool) → Option ℕ → Option ℕ → List Ticket → Type 0
AreMirrored p team user =
    All (λ t. p t ≡ true → (t.assigned_team_id ≡ team) × (t.assigned_user_id ≡ user))

pub sync_rows-AreMirrored :
    (cid : ℕ) (primary : Option ℕ) (linked : Bool) (team user : Option ℕ) (ts : List Ticket)
    → AreMirrored
        (is_synced cid primary linked)
        team
        user
        (sync_rows (is_synced cid primary linked) team user ts)
unfolding sync_rows
sync_rows-AreMirrored cid primary linked team user [] = tt
sync_rows-AreMirrored cid primary linked team user (t ∷ ts) = (
  elim (Bool-cases (is_synced cid primary linked t)) [
    | inl synced ↦ rw synced (λ h. (refl, refl))
    | inr left ↦ rw left (λ h. absurd (cc))
  ],
  sync_rows-AreMirrored cid primary linked team user ts,
)
