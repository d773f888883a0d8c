-- ===== src/Users/Tests.antt =====
-- Runs of the user service, and its theorems at concrete users.
use ai_customer_support_plat.Prelude.{
  ◌≡◌, ◌≤◌, refl, true, false, [], ◌∷◌, ◌++◌, none, some, codes, strip, lower, text_eq, arith,
}
use ai_customer_support_plat.Auth.Permissions.{
  RoleName, owner, manager, agent, role_rank, customers_read, role_permissions, has,
  can_manage_user, can_assign_role,
}
use ai_customer_support_plat.Auth.Escalation.{assigned-permissions-held}
use ai_customer_support_plat.Users.Service.{
  User, Store, UserListItem, ok, err, update_user, create_user, last_owner, own_account,
  cannot_assign, cannot_manage, email_exists, user_role_changed, user_created, user_not_found,
  find_user, change_role, change_active,
}
use ai_customer_support_plat.Users.Owners.{HasOwner, update_user-HasOwner}
use ai_customer_support_plat.Users.Ranks.{update_user-rank}
use ai_customer_support_plat.Users.Emails.{HasDistinctEmails, create_user-appends}

abbrev ann : User
ann = record {
  id = 1;
  organization_id = 9;
  role = some owner;
  email = codes "ann@x";
  full_name = codes "Ann";
  hashed_password = [];
  is_active = true;
}

abbrev bob : User
bob = record {
  id = 2;
  organization_id = 9;
  role = some manager;
  email = codes "bob@x";
  full_name = codes "Bob";
  hashed_password = [];
  is_active = true;
}

abbrev office : Store
office = record { users = ann ∷ bob ∷ []; roles = owner ∷ manager ∷ agent ∷ []; audit = [] }

service : Unit {0}
unfolding text_eq lower strip update_user create_user change_role change_active can_manage_user
    can_assign_role
service = tt

-- The last owner cannot step down, a manager cannot touch the owner, nobody deactivates themselves.
update_tests :
    (update_user ann 1 none (some manager) none office ≡ err 409 last_owner)
    × (update_user bob 1 none none none office ≡ err 403 cannot_manage)
    × (update_user bob 2 none (some owner) none office ≡ err 403 (cannot_assign owner))
    × (update_user bob 2 none none (some false) office ≡ err 409 own_account)
    × (update_user bob 3 none none none office ≡ err 404 user_not_found)
unfolding service
update_tests = (refl, refl, refl, refl, refl)

create_test :
    create_user (λ p. p) ann 3 (codes " Bob@X ") (codes "B") agent [] true office
    ≡ err 409 email_exists
unfolding service
create_test = refl

abbrev bob_item : UserListItem
bob_item = record {
  id = 2;
  email = codes "bob@x";
  full_name = codes "Rob";
  is_active = true;
  role = agent;
}

abbrev after_update : Store
after_update = record {
  users = ann ∷ record bob { full_name = codes "Rob"; role = some agent } ∷ [];
  roles = owner ∷ manager ∷ agent ∷ [];
  audit = record { actor_id = 1; action = user_role_changed; entity_id = 2 } ∷ [];
}

demoted :
    update_user ann 2 (some (codes " Rob ")) (some agent) none office ≡ ok (bob_item, after_update)
unfolding service
demoted = refl

assigned-permissions-held_example : has customers_read (role_permissions owner) ≡ true
unfolding has role_permissions can_assign_role
assigned-permissions-held_example =
    assigned-permissions-held owner agent customers_read refl refl refl

update_user-HasOwner_example : HasOwner 9 after_update.users
update_user-HasOwner_example =
    update_user-HasOwner ann 2 (some (codes " Rob ")) (some agent) none office bob_item after_update
      9 (omega arith) refl demoted

update_user-rank_example :
    (role : RoleName) × (target : User) × (ann.role ≡ some role)
    × (find_user 9 2 office.users ≡ some target)
    × (role_rank (elim target.role [ none ↦ agent | some r ↦ r ]) ≤ role_rank role)
    × (role_rank agent ≤ role_rank role)
update_user-rank_example =
    update_user-rank ann 2 (some (codes " Rob ")) (some agent) none office bob_item after_update
      demoted

abbrev cy : User
cy = record {
  id = 3;
  organization_id = 9;
  role = some agent;
  email = codes "cy@x";
  full_name = codes "Cy";
  hashed_password = codes "pw";
  is_active = true;
}

abbrev cy_item : UserListItem
cy_item = record {
  id = 3;
  email = codes "cy@x";
  full_name = codes "Cy";
  is_active = true;
  role = agent;
}

abbrev after_create : Store
after_create = record {
  users = ann ∷ bob ∷ cy ∷ [];
  roles = owner ∷ manager ∷ agent ∷ [];
  audit = record { actor_id = 1; action = user_created; entity_id = 3 } ∷ [];
}

created :
    create_user (λ p. p) ann 3 (codes " CY@x") (codes "Cy ") agent (codes "pw") true office
    ≡ ok (cy_item, after_create)
unfolding service
created = refl

create_user-appends_example :
    (u : User) × (role : RoleName) × (after_create.users ≡ office.users ++ u ∷ [])
    × (u.organization_id ≡ 9)
    × (u.email ≡ lower (strip (codes " CY@x")))
    × (u.full_name ≡ strip (codes "Cy "))
    × (u.hashed_password ≡ codes "pw")
    × (u.role ≡ some agent)
    × (ann.role ≡ some role)
    × (role_rank agent ≤ role_rank role)
    × HasDistinctEmails after_create.users
create_user-appends_example =
    create_user-appends (λ p. p) ann 3 (codes " CY@x") (codes "Cy ") agent (codes "pw") true office
      cy_item after_create (ground arith) created
