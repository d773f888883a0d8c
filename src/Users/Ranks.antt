-- ===== src/Users/Ranks.antt =====
-- Nobody manages a higher rank than their own, and nobody gives one.
use ai_customer_support_plat.Prelude.{ℕ, ◌≡◌, ◌≤◌, Bool, true, Option, none, some, Text, arith}
use ai_customer_support_plat.Auth.Permissions.{
  RoleName, can_assign_role, can_manage_user, role_rank,
}
use ai_customer_support_plat.Users.Service.{
  ok, User, Store, UserListItem, find_user, target_role, change_role, change_name, change_active,
  update_user, get_role,
}
use ai_customer_support_plat.Users.Inversion.{update_user-IsUpdate}

change_role-rank :
    (actor : User) (role : RoleName) (t : User) (r : Option RoleName) (s : Store) (u : User)
    → can_manage_user role (target_role t) ≡ true
    → change_role actor role t r s ≡ ok u
    → role_rank (target_role u) ≤ role_rank role
unfolding change_role get_role can_manage_user can_assign_role
change_role-rank actor role t none s u m h = ground arith
change_role-rank actor role t (some r) s u m h = ground arith

change_active-role :
    (actor : User) (old : RoleName) (uid : ℕ) (f : Option Bool) (s : Store) (u v : User)
    → change_active actor old uid f s u ≡ ok v
    → (target_role v ≡ target_role u) × (v.id ≡ u.id)
unfolding change_active
change_active-role actor old uid none s u v h = ground arith
change_active-role actor old uid (some f) s u v h = ground arith

-- A successful `update_user` is by an actor with a role, on a user of the actor's organisation
-- whose role did not outrank the actor's, and the role that it returns does not outrank it either.
pub update_user-rank :
    (actor : User) (uid : ℕ) (full_name : Option Text) (role_name : Option RoleName)
    (flag : Option Bool) (s : Store) (item : UserListItem) (s' : Store)
    → update_user actor uid full_name role_name flag s ≡ ok (item, s')
    → (role : RoleName) × (target : User) × (actor.role ≡ some role)
      × (find_user actor.organization_id uid s.users ≡ some target)
      × (role_rank (target_role target) ≤ role_rank role)
      × (role_rank item.role ≤ role_rank role)
unfolding can_manage_user
update_user-rank actor uid full_name role_name flag s item s' h =
    let w = update_user-IsUpdate actor uid full_name role_name flag s item s' h in
    (
      w.role,
      w.target,
      w.acting,
      w.found,
      ground (arith, w.managed),
      ground (
        arith,
        w.listed,
        change_active-role actor (target_role w.target) uid flag s
            (change_name full_name w.promoted) w.changed w.switched,
        change_role-rank actor w.role w.target role_name s w.promoted w.managed w.moved,
      ),
    )
