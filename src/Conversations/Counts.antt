-- ===== src/Conversations/Counts.antt =====
-- What an update does to the row, to the counts of the agents and to the events.
use ai_customer_support_plat.Prelude.{
  ℕ, ◌≡◌, ◌∙◌, ◌⊎◌, refl, sym, ap, inl, inr, Bool, true, false, not, ◌&&◌, Option, none, some,
  opt_eq, opt_eq_iff, if◌then◌else◌, arith, Bool-cases,
}
use ai_customer_support_plat.Domain.{Conversation, AgentAvailability, Db}
use ai_customer_support_plat.Assignment.Writes.{plus, minus, adjust_active_count}
use ai_customer_support_plat.Assignment.Transfer.{recount, adjust-lookup_opt}
use ai_customer_support_plat.Conversations.Update.{is_closed, recount_users}

-- The conversation counts for the agent: assigned to the agent, and not closed.
abbrev pub is_counted : Conversation → ℕ → Bool
is_counted c v = not (is_closed c.status) && opt_eq c.assigned_user_id (some v)

-- A count that follows a conversation which counted, or did not, and now counts, or does not.
abbrev pub follow : Bool → Bool → Option AgentAvailability → Option AgentAvailability
follow true false a = recount (minus 1) a
follow false true a = recount (plus 1) a
follow _ _ a = a

-- The counts after both assignees were recounted, and after a status change.
abbrev pub recounted : Option ℕ → Option ℕ → ℕ → Option AgentAvailability → Option AgentAvailability
recounted old new v a =
    if opt_eq old new
    then a
    else (let b = if opt_eq old (some v) then recount (minus 1) a else a in
        if opt_eq new (some v) then recount (plus 1) b else b)

abbrev pub switched :
    Bool → Bool → Option ℕ → ℕ → Option AgentAvailability → Option AgentAvailability
switched was is new v a =
    if not was && is
    then (if opt_eq new (some v) then recount (minus 1) a else a)
    else if was && not is
    then (if opt_eq new (some v) then recount (plus 1) a else a)
    else a

recount-undo : (a : Option AgentAvailability) → recount (minus 1) (recount (plus 1) a) ≡ a
recount-undo none = refl
recount-undo (some a) =
    ap (λ (k : ℕ). some (record a { active_conversation_count = k })) (omega arith)

-- The same, of the tests that they make: whether the assignees are one, whether the agent is the old
-- or the new one, and whether the conversation was and is closed.
decided_lem :
    (was is o n : Bool) (a : Option AgentAvailability)
    → (was ≡ false) × ((o && n) ≡ false)
    → (if not was && is
        then (if n
            then recount (minus 1) (
                if n
                then recount (plus 1) (if o then recount (minus 1) a else a)
                else (if o then recount (minus 1) a else a))
            else (if n
                then recount (plus 1) (if o then recount (minus 1) a else a)
                else (if o then recount (minus 1) a else a)))
        else (if n
            then recount (plus 1) (if o then recount (minus 1) a else a)
            else (if o then recount (minus 1) a else a)))
      ≡ follow (not was && o) (not is && n) a
decided_lem true is o n a h = absurd (ground arith)
decided_lem false is true true a h = absurd (ground arith)
decided_lem false true true false a h = refl
decided_lem false false true false a h = refl
decided_lem false true false true a h = recount-undo a
decided_lem false false false true a h = refl
decided_lem false true false false a h = refl
decided_lem false false false false a h = refl

unchanged_lem :
    (was is o : Bool) (a : Option AgentAvailability)
    → (if not was && is
        then (if o then recount (minus 1) a else a)
        else if was && not is
        then (if o then recount (plus 1) a else a)
        else a)
      ≡ follow (not was && o) (not is && o) a
unchanged_lem true true o a = refl
unchanged_lem true false true a = refl
unchanged_lem true false false a = refl
unchanged_lem false true true a = refl
unchanged_lem false true false a = refl
unchanged_lem false false true a = refl
unchanged_lem false false false a = refl

both_users :
    (old new : Option ℕ) (v : ℕ)
    → opt_eq old new ≡ false
    → (opt_eq old (some v) && opt_eq new (some v)) ≡ false
both_users none new v h = ground arith
both_users (some u) none v h = ground arith
both_users (some u) (some w) v h = ground arith

pub follow_lem :
    (was is : Bool) (old new : Option ℕ) (v : ℕ) (a : Option AgentAvailability)
    → (was ≡ false) ⊎ (new ≡ old)
    → switched was is new v (recounted old new v a)
      ≡ follow (not was && opt_eq old (some v)) (not is && opt_eq new (some v)) a
follow_lem was is old new v a h = elim (Bool-cases (opt_eq old new)) [
  | inl x ↦
      let e : old ≡ new = (opt_eq_iff old new).0 x in
      let o : opt_eq old (some v) ≡ opt_eq new (some v) =
        ap (λ (k : Option ℕ). opt_eq k (some v)) e in
      rw (x, o) (unchanged_lem was is (opt_eq new (some v)) a)
  | inr x ↦
      let open_before : was ≡ false = elim h [
        | inl p ↦ p
        | inr p ↦ absurd (ground (arith, opt_eq_iff old new, sym p))
      ] in
      rw (x, open_before)
        (decided_lem false is (opt_eq old (some v)) (opt_eq new (some v)) a
          (refl, both_users old new v x))
]

pub recount_users-availability :
    (old new : Option ℕ) (v : ℕ) (db : Db)
    → (recount_users old new db).availability v ≡ recounted old new v (db.availability v)
recount_users-availability old new v db = elim (Bool-cases (opt_eq old new)) [
  | inl x ↦ rw (x) refl
  | inr x ↦ rw x (
      adjust-lookup_opt new v (plus 1) (adjust_active_count old (minus 1) db) refl
      ∙ ap (λ (b : Option AgentAvailability). if opt_eq new (some v) then recount (plus 1) b else b)
          (adjust-lookup_opt old v (minus 1) db refl))
]
