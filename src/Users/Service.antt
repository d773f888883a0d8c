-- ===== src/Users/Service.antt =====
-- backend/app/modules/users/service.py: `UserService`. A raised `UserServiceError` is a value; the
-- request's session rolls back on it, so an error carries no state. The password hash is a
-- parameter, and the identifier of a new row is an argument.
use ai_customer_support_plat.Prelude.{
  ℕ, Bool, true, false, not, ◌&&◌, ◌||◌, List, [], ◌∷◌, ◌++◌, Option, none, some, ltb, ◌==◌,
  if◌then◌else◌, length, filter_by, Text, text_eq, strip, lower,
}
use ai_customer_support_plat.Auth.Permissions.{
  RoleName, owner, admin, manager, agent, read_only, can_assign_role, can_manage_user,
}

pub data Detail : Type 0 where
  user_not_found email_exists cannot_manage own_account last_owner no_actor_role no_user_role :
      Detail
  cannot_assign role_not_found : RoleName → Detail

-- `UserServiceError(status_code, detail)`
pub data Result (A : Type 0) : Type 0 where
  ok : A → Result A
  err : ℕ → Detail → Result A

-- A guard that raises.
abbrev pub raise_if : Bool → ℕ → Detail → Result (Unit {0})
raise_if true c d = err c d
raise_if false c d = ok tt

-- The first error ends the method.
infixl 5 ◌>>=◌
abbrev pub ◌>>=◌ : {A B : Type 0} → Result A → (A → Result B) → Result B
err c d >>= next = err c d
ok a >>= next = next a

infixl 5 ◌>>◌
abbrev pub ◌>>◌ : {A B : Type 0} → Result A → Result B → Result B
check >> next = check >>= (λ done. next)

pub record User : Type 0 where
  pub id : ℕ
  pub organization_id : ℕ
  pub role : Option RoleName
  pub email : Text
  pub full_name : Text
  pub hashed_password : Text
  pub is_active : Bool

pub data AuditAction : Type 0 where
  user_created user_updated user_role_changed user_password_reset : AuditAction

pub record AuditEntry : Type 0 where
  pub actor_id : ℕ
  pub action : AuditAction
  pub entity_id : ℕ

-- The tables `users`, `roles` (by name) and `audit_logs`.
pub record Store : Type 0 where
  pub users : List User
  pub roles : List RoleName
  pub audit : List AuditEntry

pub record UserListItem : Type 0 where
  pub id : ℕ
  pub email : Text
  pub full_name : Text
  pub is_active : Bool
  pub role : RoleName

abbrev pub role_eq : RoleName → RoleName → Bool
role_eq owner owner = true
role_eq admin admin = true
role_eq manager manager = true
role_eq agent agent = true
role_eq read_only read_only = true
role_eq _ _ = false

abbrev pub write_audit : ℕ → AuditAction → ℕ → Store → Store
write_audit actor action entity s = record s {
  audit = s.audit ++ record { actor_id = actor; action = action; entity_id = entity } ∷ [];
}

unfoldable pub find_user : ℕ → ℕ → List User → Option User
find_user org uid [] = none
find_user org uid (u ∷ us) =
    if u.id == uid && u.organization_id == org then some u else find_user org uid us

unfoldable pub find_email : Text → List User → Option User
find_email e [] = none
find_email e (u ∷ us) = if text_eq u.email e then some u else find_email e us

unfoldable pub get_user : ℕ → ℕ → Store → Result User
unfolding find_user
get_user org uid s = elim (find_user org uid s.users) [
  | none ↦ err 404 user_not_found
  | some u ↦ ok u
]

unfoldable pub find_role : RoleName → List RoleName → Bool
find_role r [] = false
find_role r (q ∷ qs) = role_eq q r || find_role r qs

unfoldable pub get_role : RoleName → Store → Result RoleName
unfolding find_role
get_role r s = if find_role r s.roles then ok r else err 404 (role_not_found r)

abbrev pub actor_role : User → Result RoleName
actor_role actor = elim actor.role [ none ↦ err 500 no_actor_role | some r ↦ ok r ]

-- `target.role.name if target.role else RoleName.AGENT`
abbrev pub target_role : User → RoleName
target_role target = elim target.role [ none ↦ agent | some r ↦ r ]

abbrev pub to_list_item : User → Result UserListItem
to_list_item u = elim u.role [
  | none ↦ err 500 no_user_role
  | some r ↦ ok (record {
    id = u.id;
    email = u.email;
    full_name = u.full_name;
    is_active = u.is_active;
    role = r;
  })
]

abbrev pub is_owner : Option RoleName → Bool
is_owner none = false
is_owner (some r) = role_eq r owner

-- The rows that `_ensure_not_last_owner` counts, before it excludes one.
abbrev pub is_active_owner : ℕ → User → Bool
is_active_owner org u = u.organization_id == org && (u.is_active && is_owner u.role)

abbrev pub is_other_owner : ℕ → ℕ → User → Bool
is_other_owner org excluded u = is_active_owner org u && not (u.id == excluded)

unfoldable pub ensure_not_last_owner : ℕ → ℕ → List User → Result (Unit {0})
ensure_not_last_owner org excluded users =
    raise_if (ltb (length (filter_by (is_other_owner org excluded) users)) 1) 409 last_owner

-- The row of `u` written back.
unfoldable pub replace_user : User → List User → List User
replace_user u [] = []
replace_user u (v ∷ vs) = (if v.id == u.id then u else v) ∷ replace_user u vs

module _ (hash_password : Text → Text) where
  unfoldable pub create_user :
      User → ℕ → Text → Text → RoleName → Text → Bool → Store → Result (UserListItem × Store)
  unfolding find_email get_role
  create_user actor new_id email full_name role_name password is_active s = do
    role ← actor_role actor
    raise_if (not (can_assign_role role role_name)) 403 (cannot_assign role_name)
    let normalized = lower (strip email)
    elim (find_email normalized s.users) [ none ↦ ok tt | some _ ↦ err 409 email_exists ]
    found ← get_role role_name s
    let user : User = record {
      id = new_id;
      organization_id = actor.organization_id;
      role = some found;
      email = normalized;
      full_name = strip full_name;
      hashed_password = hash_password password;
      is_active = is_active;
    }
    item ← to_list_item user
    ok (item, write_audit actor.id user_created new_id (record s { users = s.users ++ user ∷ [] }))

  unfoldable pub reset_password : User → ℕ → Text → Store → Result Store
  unfolding get_user replace_user
  reset_password actor uid password s = do
    target ← get_user actor.organization_id uid s
    role ← actor_role actor
    raise_if (not (can_manage_user role (target_role target))) 403 cannot_manage
    let changed : User = record target { hashed_password = hash_password password }
    ok (
        write_audit actor.id user_password_reset target.id
          (record s { users = replace_user changed s.users }))

-- The role part of `update_user`: the target with its new role.
unfoldable pub change_role : User → RoleName → User → Option RoleName → Store → Result User
unfolding get_role ensure_not_last_owner
change_role actor role target none s = ok target
change_role actor role target (some role_name) s =
    if role_eq role_name (target_role target) then ok target else (do
      raise_if (not (can_assign_role role role_name)) 403 (cannot_assign role_name)
      if role_eq (target_role target) owner && not (role_eq role_name owner)
          then ensure_not_last_owner actor.organization_id target.id s.users
          else ok tt
      found ← get_role role_name s
      ok (record target { role = some found }))

abbrev pub change_name : Option Text → User → User
change_name none u = u
change_name (some n) u = record u { full_name = strip n }

abbrev pub bool_eq : Bool → Bool → Bool
bool_eq true b = b
bool_eq false b = not b

-- The activation part. `old_role` is the role before this call, and the owners that are counted
-- exclude the target, so the row that is being changed does not matter to the count.
unfoldable pub change_active : User → RoleName → ℕ → Option Bool → Store → User → Result User
unfolding ensure_not_last_owner
change_active actor old_role uid none s u = ok u
change_active actor old_role uid (some flag) s u = if bool_eq flag u.is_active then ok u else (do
  raise_if (uid == actor.id && not flag) 409 own_account
  if role_eq old_role owner && not flag
      then ensure_not_last_owner actor.organization_id u.id s.users
      else ok tt
  ok (record u { is_active = flag }))

abbrev pub update_action : RoleName → User → AuditAction
update_action old u = if role_eq (target_role u) old then user_updated else user_role_changed

unfoldable pub update_user :
    User → ℕ → Option Text → Option RoleName → Option Bool → Store → Result (UserListItem × Store)
unfolding get_user replace_user
update_user actor uid full_name role_name flag s = do
  target ← get_user actor.organization_id uid s
  role ← actor_role actor
  let old_role = target_role target
  raise_if (not (can_manage_user role old_role)) 403 cannot_manage
  promoted ← change_role actor role target role_name s
  changed ← change_active actor old_role uid flag s (change_name full_name promoted)
  item ← to_list_item changed
  ok (
    item,
    write_audit actor.id (update_action old_role changed) target.id
        (record s { users = replace_user changed s.users }),
  )
