-- ===== src/Conversations/Effects.antt =====
-- What the single steps of an update of a conversation change.
use ai_customer_support_plat.Prelude.{
  ℕ, ◌≡◌, ◌∙◌, refl, ap, inl, inr, Bool, true, false, not, ◌&&◌, Option, none, some, opt_eq,
  if◌then◌else◌, arith, Bool-cases,
}
use ai_customer_support_plat.Domain.{Conversation, AgentAvailability, Db}
use ai_customer_support_plat.Assignment.Writes.{
  Delta, plus, minus, adjust_active_count, sync_tickets,
}
use ai_customer_support_plat.Assignment.Team.{adjust-conversations}
use ai_customer_support_plat.Assignment.Transfer.{recount, adjust-lookup_opt}
use ai_customer_support_plat.Hours.Calendar.{BusinessHours}
use ai_customer_support_plat.Sla.Service.{priority_eq}
use ai_customer_support_plat.Conversations.Update.{
  is_closed, recount_users, restart_timers, close_or_reopen,
}
use ai_customer_support_plat.Conversations.Counts.{switched}

pub recount_users-conversations :
    (old new : Option ℕ) (db : Db) → (recount_users old new db).conversations ≡ db.conversations
recount_users-conversations old new db = elim (Bool-cases (opt_eq old new)) [
  | inl x ↦ rw x refl
  | inr x ↦ rw x (
      adjust-conversations new (plus 1) (adjust_active_count old (minus 1) db)
      ∙ adjust-conversations old (minus 1) db)
]

adjust-events :
    (u : Option ℕ) (d : Delta) (db : Db) → (adjust_active_count u d db).events ≡ db.events
unfolding adjust_active_count
adjust-events none d db = refl
adjust-events (some u) d db = ground arith

pub recount_users-events :
    (old new : Option ℕ) (db : Db) → (recount_users old new db).events ≡ db.events
recount_users-events old new db = elim (Bool-cases (opt_eq old new)) [
  | inl x ↦ rw x refl
  | inr x ↦ rw x (
      adjust-events new (plus 1) (adjust_active_count old (minus 1) db)
      ∙ adjust-events old (minus 1) db)
]

-- Syncing tickets, or not, leaves the rest.
abbrev pub IsKept : Db → Db → Type 0
IsKept db db' =
    (db'.conversations ≡ db.conversations)
    × ((v : ℕ) → db'.availability v ≡ db.availability v)
    × (db'.events ≡ db.events)

pub synced-IsKept :
    (b : Bool) (cid : ℕ) (team user : Option ℕ) (db : Db)
    → IsKept db (if b then sync_tickets cid team user none true db else db)
unfolding sync_tickets
synced-IsKept true cid team user db = (refl, λ v. refl, refl)
synced-IsKept false cid team user db = (refl, λ v. refl, refl)

pub twice :
    (a : Option AgentAvailability) → recount (plus 1) (recount (plus 1) a) ≡ recount (plus 2) a
twice none = refl
twice (some a) = ap (λ (k : ℕ). some (record a { active_conversation_count = k })) (omega arith)

module _ (to_local to_utc : ℕ → ℕ) (hours : Option BusinessHours) (now : ℕ) where
  pub restart-IsKept :
      (org cid : ℕ) (old new : Conversation) (db : Db)
      → IsKept db (restart_timers to_local to_utc hours now org cid old new db)
  unfolding restart_timers
  restart-IsKept org cid old new db = elim (Bool-cases (priority_eq old.priority new.priority)) [
    | inl x ↦ rw (x, restart_timers) (refl, λ v. refl, refl)
    | inr x ↦ rw (x, restart_timers) (refl, λ v. refl, refl)
  ]

  pub close_or_reopen-counts :
      (cid : ℕ) (old new : Conversation) (db : Db) (v : ℕ)
      → (close_or_reopen to_local to_utc hours now cid old new db).availability v
        ≡ switched
            (is_closed old.status)
            (is_closed new.status)
            new.assigned_user_id
            v
            (db.availability v)
  unfolding close_or_reopen
  close_or_reopen-counts cid old new db v =
      elim (Bool-cases (not (is_closed old.status) && is_closed new.status)) [
        | inl x ↦
            rw (x, close_or_reopen) (adjust-lookup_opt new.assigned_user_id v (minus 1) _ refl)
        | inr x ↦ elim (Bool-cases (is_closed old.status && not (is_closed new.status))) [
          | inl y ↦
              rw (x, y, close_or_reopen) (adjust-lookup_opt new.assigned_user_id v (plus 1) _ refl)
          | inr y ↦ rw (x, y, close_or_reopen) refl
        ]
      ]

  pub close_or_reopen-rest :
      (cid : ℕ) (old new : Conversation) (db : Db)
      → ((close_or_reopen to_local to_utc hours now cid old new db).conversations
          ≡ db.conversations)
        × ((close_or_reopen to_local to_utc hours now cid old new db).events ≡ db.events)
  unfolding close_or_reopen
  close_or_reopen-rest cid old new db =
      elim (Bool-cases (not (is_closed old.status) && is_closed new.status)) [
        | inl x ↦
            rw (x, close_or_reopen)
              (
                adjust-conversations new.assigned_user_id (minus 1) _,
                adjust-events new.assigned_user_id (minus 1) _,
              )
        | inr x ↦ elim (Bool-cases (is_closed old.status && not (is_closed new.status))) [
          | inl y ↦
              rw (x, y, close_or_reopen)
                (
                  adjust-conversations new.assigned_user_id (plus 1) _,
                  adjust-events new.assigned_user_id (plus 1) _,
                )
          | inr y ↦ rw (x, y, close_or_reopen) (refl, refl)
        ]
      ]
