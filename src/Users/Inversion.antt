-- ===== src/Users/Inversion.antt =====
-- What a successful `update_user` went through, step by step.
use ai_customer_support_plat.Prelude.{
  ℕ, ◌≡◌, refl, inl, inr, Bool, true, not, List, [], ◌∷◌, Option, some, Text, arith, Option-cases,
}
use ai_customer_support_plat.Auth.Permissions.{RoleName, can_manage_user}
use ai_customer_support_plat.Users.Service.{
  Result, ok, err, ◌>>=◌, raise_if, User, Store, UserListItem, find_user, get_user, target_role,
  actor_role, replace_user, change_role, change_name, change_active, update_user, to_list_item,
}

-- The first step succeeds, and the rest of the method on its value.
abbrev pub Passes : {A B : Type 0} → Result A → (A → Result B) → B → Type 0
Passes {A} step rest out = (v : A) × (step ≡ ok v) × (rest v ≡ ok out)

pub bind-ok :
    {A B : Type 0} (step : Result A) (rest : A → Result B) {out : B}
    → (step >>= rest) ≡ ok out
    → Passes step rest out
bind-ok (err c d) rest e = cc
bind-ok (ok v) rest e = (v, refl, e)

get_user-found :
    (org uid : ℕ) (s : Store) (t : User)
    → get_user org uid s ≡ ok t
    → find_user org uid s.users ≡ some t
unfolding get_user
get_user-found org uid s t h = elim (Option-cases (find_user org uid s.users)) [
  | inl missing ↦ absurd (ground arith)
  | inr (v, e) ↦ ground arith
]

pub found-id :
    (org uid : ℕ) (us : List User) (t : User)
    → find_user org uid us ≡ some t
    → (t.id ≡ uid) × (t.organization_id ≡ org)
unfolding find_user
found-id org uid [] t h = absurd (cc)
found-id org uid (v ∷ us) t h = ground (arith, found-id org uid us t)

-- What a successful `update_user` went through.
pub record IsUpdate (actor : User) (uid : ℕ) (full_name : Option Text) (role_name : Option RoleName)
    (flag : Option Bool) (s : Store) (item : UserListItem) (s' : Store) : Type 0 where
  pub target : User
  pub role : RoleName
  pub promoted : User
  pub changed : User
  pub found : find_user actor.organization_id uid s.users ≡ some target
  pub acting : actor.role ≡ some role
  pub managed : can_manage_user role (target_role target) ≡ true
  pub moved : change_role actor role target role_name s ≡ ok promoted
  pub switched :
      change_active actor (target_role target) uid flag s (change_name full_name promoted)
      ≡ ok changed
  pub listed : to_list_item changed ≡ ok item
  pub written : s'.users ≡ replace_user changed s.users

pub actor_role-some : (a : User) (r : RoleName) → actor_role a ≡ ok r → a.role ≡ some r
actor_role-some a r h = ground arith

module _ (actor : User) (uid : ℕ) (full_name : Option Text) (role_name : Option RoleName)
    (flag : Option Bool) (s : Store) (item : UserListItem) (s' : Store) where
  pub update_user-IsUpdate :
      update_user actor uid full_name role_name flag s ≡ ok (item, s')
      → IsUpdate actor uid full_name role_name flag s item s'
  unfolding update_user
  update_user-IsUpdate h =
      let (t, e1, h1) = bind-ok (get_user actor.organization_id uid s) _ h in
      let (r, e2, h2) = bind-ok (actor_role actor) _ h1 in
      let (u0, e3, h3) = bind-ok (raise_if (not (can_manage_user r (target_role t))) 403 _) _ h2 in
      let (p, e4, h4) = bind-ok (change_role actor r t role_name s) _ h3 in
      let (c, e5, h5) =
        bind-ok (change_active actor (target_role t) uid flag s (change_name full_name p)) _ h4 in
      let (i, e6, h6) = bind-ok (to_list_item c) _ h5 in
      record {
        target = t;
        role = r;
        promoted = p;
        changed = c;
        found = get_user-found actor.organization_id uid s t e1;
        acting = actor_role-some actor r e2;
        managed = ground arith;
        moved = e4;
        switched = e5;
        listed = ground arith;
        written = ground arith;
      }
