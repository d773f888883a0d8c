-- ===== src/Assignment/Keeping.antt =====
-- `keep` of `ensure_assignee_for_team`.
use ai_customer_support_plat.Prelude.{
  ℕ, ◌≡◌, ◌⊎◌, inl, inr, refl, subst, Bool, true, false, Option, none, some, In, contains-In,
  In-contains, arith,
}
use ai_customer_support_plat.Domain.{Db}
use ai_customer_support_plat.Assignment.Rotation.{member_ids}
use ai_customer_support_plat.Assignment.Writes.{user_on_team}
use ai_customer_support_plat.Assignment.Service.{keeps}

-- The old assignee is kept: the flag is set, and it is a member of the team.
abbrev pub IsKept : Bool → Option ℕ → ℕ → Db → Type 0
IsKept flag old tid db = (u : ℕ) × (flag ≡ true) × (old ≡ some u) × In u (member_ids tid db.members)

-- The old assignee is not kept: the flag is not set, or no member of the team is the assignee.
abbrev pub IsDropped : Bool → Option ℕ → ℕ → Db → Type 0
IsDropped flag old tid db =
    (flag ≡ false) ⊎ ((u : ℕ) → old ≡ some u → ¬ (In u (member_ids tid db.members)))

pub keeps-IsKept :
    (flag : Bool) (old : Option ℕ) (tid : ℕ) (db : Db)
    → keeps flag old tid db ≡ true
    → IsKept flag old tid db
unfolding user_on_team
keeps-IsKept flag none tid db h = absurd (cc)
keeps-IsKept flag (some u) tid db h =
    (u, ground arith, refl, contains-In u (member_ids tid db.members) (ground arith))

pub keeps-IsDropped :
    (flag : Bool) (old : Option ℕ) (tid : ℕ) (db : Db)
    → keeps flag old tid db ≡ false
    → IsDropped flag old tid db
unfolding user_on_team
keeps-IsDropped flag none tid db h = inr (λ u e. absurd (cc))
keeps-IsDropped false (some u) tid db h = inl refl
keeps-IsDropped true (some u) tid db h = inr (λ v e m.
    let m' : In u (member_ids tid db.members) =
      subst (λ x. In x (member_ids tid db.members)) (cc) m in
    absurd (ground (arith, In-contains u (member_ids tid db.members) m')))
