-- ===== src/Users/Emails.antt =====
-- Creating a user: the guards, and the uniqueness of e-mail addresses.
use ai_customer_support_plat.Prelude.{
  inl, inr, ap, subst, sym, ℕ, ◌≡◌, ◌≢◌, ◌≤◌, refl, Bool, not, List, [], ◌∷◌, ◌++◌, none, some,
  Text, text_eq_iff, lower, strip, arith, Option-cases, All, All-snoc,
}
use ai_customer_support_plat.Auth.Permissions.{RoleName, can_assign_role, role_rank}
use ai_customer_support_plat.Users.Service.{
  ok, err, raise_if, User, Store, UserListItem, find_email, create_user, get_role, actor_role,
  email_exists,
}
use ai_customer_support_plat.Users.Inversion.{bind-ok, actor_role-some}

-- No two rows have one address.
abbrev pub HasDistinctEmails : List User → Type 0
HasDistinctEmails [] = Unit
HasDistinctEmails (u ∷ us) = All (λ v. v.email ≢ u.email) us × HasDistinctEmails us

find_email-none : (e : Text) (us : List User) → find_email e us ≡ none → All (λ v. v.email ≢ e) us
unfolding find_email
find_email-none e [] h = tt
find_email-none e (v ∷ us) h = ground (arith, text_eq_iff v.email e, find_email-none e us)

HasDistinctEmails-snoc :
    (us : List User) (u : User)
    → HasDistinctEmails us
    → All (λ v. v.email ≢ u.email) us
    → HasDistinctEmails (us ++ u ∷ [])
HasDistinctEmails-snoc [] u d a = (tt, tt)
HasDistinctEmails-snoc (v ∷ us) u d a = (
  All-snoc (λ w. w.email ≢ v.email) us u d.0 (λ e. a.0 (sym e)),
  HasDistinctEmails-snoc us u d.1 a.1,
)

get_role-eq : (r q : RoleName) (s : Store) → get_role r s ≡ ok q → q ≡ r
unfolding get_role
get_role-eq r q s h = ground arith

module _ (hash_password : Text → Text) (actor : User) (new_id : ℕ) (email full_name : Text)
    (role_name : RoleName) (password : Text) (is_active : Bool) (s : Store) where
  -- A successful `create_user` appends one row, in the actor's organisation, with the lower-case
  -- stripped address, the stripped name, the hashed password and the role that was asked for; the
  -- role does not outrank the actor's, and addresses that were distinct stay distinct.
  pub create_user-appends :
      (item : UserListItem) (s' : Store)
      → HasDistinctEmails s.users
      → create_user hash_password actor new_id email full_name role_name password is_active s
        ≡ ok (item, s')
      → (u : User) × (role : RoleName) × (s'.users ≡ s.users ++ u ∷ [])
        × (u.organization_id ≡ actor.organization_id)
        × (u.email ≡ lower (strip email))
        × (u.full_name ≡ strip full_name)
        × (u.hashed_password ≡ hash_password password)
        × (u.role ≡ some role_name)
        × (actor.role ≡ some role)
        × (role_rank role_name ≤ role_rank role)
        × HasDistinctEmails s'.users
  unfolding create_user can_assign_role
  create_user-appends item s' d h =
      let (r, e1, h1) = bind-ok (actor_role actor) _ h in
      let (u1, e2, h2) = bind-ok (raise_if (not (can_assign_role r role_name)) 403 _) _ h1 in
      let (u2, e3, h3) =
        bind-ok
          (elim (find_email (lower (strip email)) s.users) [
            | none ↦ ok tt
            | some _ ↦ err 409 email_exists
          ])
          _ h2 in
      let (g, e4, h4) = bind-ok (get_role role_name s) _ h3 in
      elim (Option-cases (find_email (lower (strip email)) s.users)) [
        | inl free ↦
            let u : User = record {
              id = new_id;
              organization_id = actor.organization_id;
              role = some g;
              email = lower (strip email);
              full_name = strip full_name;
              hashed_password = hash_password password;
              is_active = is_active;
            } in
            let users : s'.users ≡ s.users ++ u ∷ [] = ground arith in
            (
              u,
              r,
              users,
              refl,
              refl,
              refl,
              refl,
              ap some (get_role-eq role_name g s e4),
              actor_role-some actor r e1,
              ground arith,
              subst HasDistinctEmails (sym users) (
                  HasDistinctEmails-snoc s.users u d
                    (find_email-none (lower (strip email)) s.users free)),
            )
        | inr (v, taken) ↦ absurd (ground arith)
      ]
