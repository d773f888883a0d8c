-- ===== src/Assignment/Frame.antt =====
-- What the writes of the service leave alone: teams, members, who is eligible, and which
-- conversations an organisation has.
use ai_customer_support_plat.Prelude.{
  ℕ, ◌≡◌, ◌∙◌, refl, Bool, Option, none, some, Table, put, ◌==◌, ==_iff, is_some, arith, Bool-cases,
  inl, inr,
}
use ai_customer_support_plat.Domain.{Conversation, AgentAvailability, Db}
use ai_customer_support_plat.Assignment.Rotation.{is_eligible, row_is}
use ai_customer_support_plat.Assignment.Writes.{
  Delta, is_zero, adjust_row, adjust_active_count, publish_assigned, publish_row,
  write_conversation, write_row, get_conversation, own_row,
}

pub record SameRoster (db db' : Db) : Type 0 where
  pub teams : db'.teams ≡ db.teams
  pub members : db'.members ≡ db.members
  pub rows :
      (off aw : Bool) (v : ℕ)
      → row_is (is_eligible off aw) (db'.availability v)
        ≡ row_is (is_eligible off aw) (db.availability v)
  pub known :
      (org c : ℕ) → is_some (get_conversation c org db') ≡ is_some (get_conversation c org db)

pub SameRoster-refl : (db : Db) → SameRoster db db
SameRoster-refl db = record {
  teams = refl;
  members = refl;
  rows = λ off aw v. refl;
  known = λ org c. refl;
}

pub SameRoster-trans : (a b c : Db) → SameRoster a b → SameRoster b c → SameRoster a c
SameRoster-trans a b c p q = record {
  teams = q.teams ∙ p.teams;
  members = q.members ∙ p.members;
  rows = λ off aw v. q.rows off aw v ∙ p.rows off aw v;
  known = λ org i. q.known org i ∙ p.known org i;
}

adjust_row-eligible :
    (off aw : Bool) (u : ℕ) (d : Delta) (o : Option AgentAvailability)
    (rows : Table AgentAvailability) (v : ℕ)
    → rows u ≡ o
    → row_is (is_eligible off aw) (adjust_row u d o rows v) ≡ row_is (is_eligible off aw) (rows v)
unfolding put is_eligible
adjust_row-eligible off aw u d none rows v e = refl
adjust_row-eligible off aw u d (some a) rows v e = elim (Bool-cases (v == u)) [
  | inl same ↦ rw (same, (==_iff v u).0 same, e)
  | inr other ↦ rw other
]

adjust-rows :
    (off aw : Bool) (u : ℕ) (d : Delta) (db : Db) (v : ℕ)
    → row_is (is_eligible off aw) ((adjust_active_count (some u) d db).availability v)
      ≡ row_is (is_eligible off aw) (db.availability v)
unfolding adjust_active_count
adjust-rows off aw u d db v = elim (Bool-cases (is_zero d)) [
  | inl nothing ↦ rw nothing
  | inr moved ↦ rw moved (adjust_row-eligible off aw u d (db.availability u) db.availability v refl)
]

pub adjust-SameRoster :
    (u : Option ℕ) (d : Delta) (db : Db) → SameRoster db (adjust_active_count u d db)
unfolding adjust_active_count get_conversation
adjust-SameRoster none d db = SameRoster-refl db
adjust-SameRoster (some u) d db = record {
  teams = ground arith;
  members = ground arith;
  rows = λ off aw v. adjust-rows off aw u d db v;
  known = λ org c. ground arith;
}

publish_row-SameRoster :
    (cid org : ℕ) (o : Option Conversation) (db : Db) → SameRoster db (publish_row cid org o db)
unfolding get_conversation
publish_row-SameRoster cid org none db = SameRoster-refl db
publish_row-SameRoster cid org (some c) db = record {
  teams = refl;
  members = refl;
  rows = λ off aw v. refl;
  known = λ org c. refl;
}

pub publish-SameRoster : (cid org : ℕ) (db : Db) → SameRoster db (publish_assigned cid org db)
unfolding publish_assigned
publish-SameRoster cid org db = publish_row-SameRoster cid org (db.conversations cid) db

put-known :
    (cid org c : ℕ) (f : Conversation → Conversation) (v : Conversation) (t : Table Conversation)
    → ((x : Conversation) → (f x).organization_id ≡ x.organization_id)
    → t cid ≡ some v
    → is_some (own_row org (put cid (f v) t c)) ≡ is_some (own_row org (t c))
unfolding put
put-known cid org c f v t h e = elim (Bool-cases (c == cid)) [
  | inl same ↦ rw (same, (==_iff c cid).0 same, e, h v) (ground arith)
  | inr other ↦ rw other
]

write_row-SameRoster :
    (cid : ℕ) (f : Conversation → Conversation) (o : Option Conversation) (db : Db)
    → ((x : Conversation) → (f x).organization_id ≡ x.organization_id)
    → db.conversations cid ≡ o
    → SameRoster db (write_row cid f o db)
unfolding get_conversation
write_row-SameRoster cid f none db h e = SameRoster-refl db
write_row-SameRoster cid f (some v) db h e = record {
  teams = refl;
  members = refl;
  rows = λ off aw v. refl;
  known = λ org c. put-known cid org c f v db.conversations h e;
}

pub write-SameRoster :
    (cid : ℕ) (f : Conversation → Conversation) (db : Db)
    → ((x : Conversation) → (f x).organization_id ≡ x.organization_id)
    → SameRoster db (write_conversation cid f db)
unfolding write_conversation
write-SameRoster cid f db h = write_row-SameRoster cid f (db.conversations cid) db h refl
