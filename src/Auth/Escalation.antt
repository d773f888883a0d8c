-- ===== src/Auth/Escalation.antt =====
-- No role can hand out a permission that it lacks.
use ai_customer_support_plat.Prelude.{
  ◌≡◌, refl, Bool, true, List, [], ◌∷◌, String, eq_iff, arith, all,
}
use ai_customer_support_plat.Auth.Permissions.{
  RoleName, owner, admin, manager, agent, read_only, users_write, role_permissions, can_assign_role,
  has,
}

-- Every permission of the first list is in the second.
unfoldable pub covers : List String → List String → Bool
unfolding has
covers ps qs = all (λ p. has p qs) ps

-- Inclusion as a Boolean gives inclusion of each member.
has-covers :
    (p : String) (ps qs : List String) → covers ps qs ≡ true → has p ps ≡ true → has p qs ≡ true
unfolding covers has
has-covers p [] qs c h = absurd (ground arith)
has-covers p (q ∷ ps) qs c h = ground (arith, eq_iff q p, has-covers p ps qs)

covers-role :
    (actor target : RoleName)
    → has users_write (role_permissions actor) ≡ true
    → can_assign_role actor target ≡ true
    → covers (role_permissions target) (role_permissions actor) ≡ true
unfolding covers has role_permissions can_assign_role
covers-role owner owner w h = refl
covers-role owner admin w h = refl
covers-role owner manager w h = refl
covers-role owner agent w h = refl
covers-role owner read_only w h = refl
covers-role admin owner w h = refl
covers-role admin admin w h = refl
covers-role admin manager w h = refl
covers-role admin agent w h = refl
covers-role admin read_only w h = refl
covers-role manager owner w h = cc
covers-role manager admin w h = cc
covers-role manager manager w h = refl
covers-role manager agent w h = refl
covers-role manager read_only w h = refl
covers-role agent target w h = cc
covers-role read_only target w h = cc

-- A role that may write users and may assign another role holds every permission which that other
-- role carries, so that a role assignment never grants what the actor lacks.
pub assigned-permissions-held :
    (actor target : RoleName) (p : String)
    → has users_write (role_permissions actor) ≡ true
    → can_assign_role actor target ≡ true
    → has p (role_permissions target) ≡ true
    → has p (role_permissions actor) ≡ true
assigned-permissions-held actor target p w a h =
    has-covers p (role_permissions target) (role_permissions actor) (covers-role actor target w a) h
