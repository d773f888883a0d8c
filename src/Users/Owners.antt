-- ===== src/Users/Owners.antt =====
-- An organisation never loses its last active owner, and no one touches a higher rank.
use ai_customer_support_plat.Prelude.{
  ◌∙◌, subst, sym, ℕ, ◌≡◌, ◌≢◌, ◌<◌, refl, ◌⊎◌, Bool, true, false, List, [], ◌∷◌, Option, none,
  some, length, filter_by, any, All, Text, arith, Bool-cases, inl, inr, ◌==◌,
}
use ai_customer_support_plat.Auth.Permissions.{RoleName}
use ai_customer_support_plat.Users.Service.{
  ok, User, Store, UserListItem, find_user, target_role, is_active_owner, is_other_owner,
  ensure_not_last_owner, replace_user, change_role, change_name, change_active, update_user,
  get_role,
}
use ai_customer_support_plat.Users.Inversion.{update_user-IsUpdate, found-id}

-- Some active user of the organisation has the role `owner`.
abbrev pub HasOwner : ℕ → List User → Type 0
HasOwner org us = any (is_active_owner org) us ≡ true

-- Identifiers are primary keys.
abbrev pub HasDistinctIds : List User → Type 0
HasDistinctIds [] = Unit
HasDistinctIds (u ∷ us) = All (λ v. v.id ≢ u.id) us × HasDistinctIds us

any_of_filter :
    {A : Type 0} (p : A → Bool) (xs : List A) → 0 < length (filter_by p xs) → any p xs ≡ true
any_of_filter p [] h = absurd (omega arith)
any_of_filter p (x ∷ xs) h = ground (arith, any_of_filter p xs)

-- Writing back another row leaves the other owners.
replace-other :
    (org : ℕ) (u : User) (us : List User)
    → any (is_other_owner org u.id) us ≡ true
    → HasOwner org (replace_user u us)
unfolding replace_user
replace-other org u [] h = absurd (cc)
replace-other org u (v ∷ us) h = ground (arith, replace-other org u us)

-- A row that is written back over itself counts as an owner if it is one.
replace_self :
    (org : ℕ) (u t : User) (us : List User) (org' : ℕ)
    → find_user org' u.id us ≡ some t
    → is_active_owner org u ≡ true
    → HasOwner org (replace_user u us)
unfolding replace_user find_user
replace_self org u t [] org' h o = absurd (cc)
replace_self org u t (v ∷ us) org' h o = ground (arith, replace_self org u t us org')

others_of_distinct :
    (org uid : ℕ) (us : List User)
    → All (λ v. v.id ≢ uid) us
    → HasOwner org us
    → any (is_other_owner org uid) us ≡ true
others_of_distinct org uid [] d h = absurd (cc)
others_of_distinct org uid (v ∷ us) d h = ground (arith, others_of_distinct org uid us d.1)

-- With an owner at hand, either the found row is one or another row is.
owner-split :
    (org uid : ℕ) (t : User) (us : List User)
    → HasDistinctIds us
    → find_user org uid us ≡ some t
    → HasOwner org us
    → (is_active_owner org t ≡ true) ⊎ (any (is_other_owner org uid) us ≡ true)
unfolding find_user
owner-split org uid t [] d f h = absurd (cc)
owner-split org uid t (v ∷ us) d f h =
    ground (arith, owner-split org uid t us d.1, others_of_distinct org v.id us d.0)

module _ (org : ℕ) (us : List User) where
  -- The row `t` became `u` without taking the last active owner away.
  abbrev Keeps : User → User → Type 0
  Keeps t u =
      (u.id ≡ t.id)
      × (u.organization_id ≡ t.organization_id)
      × ((is_active_owner org t ≡ false)
          ⊎ ((is_active_owner org u ≡ true) ⊎ (any (is_other_owner org t.id) us ≡ true)))

ensure-other :
    (org uid : ℕ) (us : List User)
    → ensure_not_last_owner org uid us ≡ ok tt
    → any (is_other_owner org uid) us ≡ true
unfolding ensure_not_last_owner
ensure-other org uid us h = any_of_filter (is_other_owner org uid) us (ground arith)

change_role-Keeps :
    (actor : User) (role : RoleName) (t : User) (r : Option RoleName) (s : Store) (u : User)
    → change_role actor role t r s ≡ ok u
    → Keeps actor.organization_id s.users t u × (u.is_active ≡ t.is_active)
unfolding change_role get_role
change_role-Keeps actor role t none s u h = ground arith
change_role-Keeps actor role t (some r) s u h =
    ground (arith, ensure-other actor.organization_id t.id s.users)

change_active-Keeps :
    (actor : User) (t : User) (uid : ℕ) (f : Option Bool) (s : Store) (u v : User)
    → Keeps actor.organization_id s.users t u
    → u.is_active ≡ t.is_active
    → change_active actor (target_role t) uid f s u ≡ ok v
    → Keeps actor.organization_id s.users t v
unfolding change_active
change_active-Keeps actor t uid none s u v k a h = ground arith
change_active-Keeps actor t uid (some f) s u v k a h =
    ground (arith, ensure-other actor.organization_id u.id s.users)

-- A renamed row counts as before.
change_name-Keeps :
    (org : ℕ) (us : List User) (t u : User) (n : Option Text)
    → Keeps org us t u
    → Keeps org us t (change_name n u)
change_name-Keeps org us t u none k = k
change_name-Keeps org us t u (some n) k = k

change_name-active : (n : Option Text) (u : User) → (change_name n u).is_active ≡ u.is_active
change_name-active none u = refl
change_name-active (some n) u = refl

replace-HasOwner :
    (org uid : ℕ) (t c : User) (us : List User)
    → HasDistinctIds us
    → HasOwner org us
    → find_user org uid us ≡ some t
    → Keeps org us t c
    → HasOwner org (replace_user c us)
replace-HasOwner org uid t c us d o f k =
    let (same, _) = found-id org uid us t f in
    ground
      (arith, owner-split org uid t us d f o, replace-other org c us, replace_self org c t us org)

-- Rows that have other identifiers stay.
replace-absent :
    (org : ℕ) (c : User) (us : List User)
    → All (λ v. v.id ≢ c.id) us
    → HasOwner org us
    → HasOwner org (replace_user c us)
unfolding replace_user
replace-absent org c [] d h = h
replace-absent org c (v ∷ us) d h = ground (arith, replace-absent org c us d.1)

others_named : (us : List User) (i j : ℕ) → All (λ w. w.id ≢ i) us → i ≡ j → All (λ w. w.id ≢ j) us
others_named us i j d e = subst (λ k. All (λ w. w.id ≢ k) us) e d

absent-find :
    (org uid : ℕ) (us : List User) → All (λ v. v.id ≢ uid) us → find_user org uid us ≡ none
unfolding find_user
absent-find org uid [] d = refl
absent-find org uid (v ∷ us) d = ground (arith, absent-find org uid us d.1)

-- A row of another organisation is written back over itself.
replace-foreign :
    (org org' : ℕ) (t c : User) (us : List User)
    → HasDistinctIds us
    → find_user org' c.id us ≡ some t
    → org' ≢ org
    → HasOwner org us
    → HasOwner org (replace_user c us)
unfolding replace_user find_user
replace-foreign org org' t c [] d f n h = h
replace-foreign org org' t c (v ∷ us) d f n h = ground (
  arith,
  replace-foreign org org' t c us d.1,
  absent-find org' v.id us d.0,
  replace-absent org c us,
  others_named us v.id c.id d.0,
)

-- Over distinct identifiers, a successful `update_user` leaves every organisation that had an active
-- owner with an active owner, the actor's own and any other, whatever it changes of the target's
-- name, role and activity.
pub update_user-HasOwner :
    (actor : User) (uid : ℕ) (full_name : Option Text) (role_name : Option RoleName)
    (flag : Option Bool) (s : Store) (item : UserListItem) (s' : Store) (org : ℕ)
    → HasDistinctIds s.users
    → HasOwner org s.users
    → update_user actor uid full_name role_name flag s ≡ ok (item, s')
    → HasOwner org s'.users
update_user-HasOwner actor uid full_name role_name flag s item s' org d o h =
    let own = actor.organization_id in
    let w = update_user-IsUpdate actor uid full_name role_name flag s item s' h in
    let (kept, active) = change_role-Keeps actor w.role w.target role_name s w.promoted w.moved in
    let renamed = change_name-Keeps own s.users w.target w.promoted full_name kept in
    let same = change_name-active full_name w.promoted ∙ active in
    let keeps =
      change_active-Keeps actor w.target uid flag s (change_name full_name w.promoted) w.changed
        renamed same w.switched in
    let id = keeps.0 ∙ (found-id own uid s.users w.target w.found).0 in
    subst (HasOwner org) (sym w.written) (elim (Bool-cases (own == org)) [
      | inl same_org ↦
          let e : own ≡ org = ground arith in
          subst (λ k. HasOwner k (replace_user w.changed s.users)) e
            (replace-HasOwner own uid w.target w.changed s.users d
              (subst (λ k. HasOwner k s.users) (sym e) o) w.found keeps)
      | inr other_org ↦
          let n : own ≢ org = ground arith in
          replace-foreign org own w.target w.changed s.users d
            (subst (λ k. find_user own k s.users ≡ some w.target) (sym id) w.found) n o
    ])
