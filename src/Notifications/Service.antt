-- ===== src/Notifications/Service.antt =====
-- backend/app/modules/notifications/application/service.py: `NotificationService`. An e-mail is a line
-- in the log, and `events` are the `notification.created` that were published. The identifier and the
-- metadata of a notification are left out.
use ai_customer_support_plat.Prelude.{
  ℕ, ◌+◌, Bool, true, false, not, ◌&&◌, ◌||◌, List, [], ◌∷◌, ◌++◌, Option, none, some, ◌==◌,
  is_some, if◌then◌else◌, Text, text_eq, codes,
}
use ai_customer_support_plat.Domain.{Team, TeamMember}
use ai_customer_support_plat.Users.Service.{User, role_eq}
use ai_customer_support_plat.Auth.Permissions.{RoleName, owner, admin, manager}
use ai_customer_support_plat.Assignment.Rotation.{member_ids}
use ai_customer_support_plat.Assignment.Service.{TeamRef, get_by_ref, find_named}

pub record NotificationPreference : Type 0 where
  pub user_id : ℕ
  pub event_type : Text
  pub in_app : Bool
  pub email : Bool
  pub enabled : Bool

pub record Notification : Type 0 where
  pub user_id : ℕ
  pub organization_id : ℕ
  pub event_type : Text
  pub title : Text
  pub body : Text

pub record NotificationTables : Type 0 where
  pub preferences : List NotificationPreference
  pub notifications : List Notification
  pub events : List Notification
  pub emails : List ℕ

-- `_get_preference`
unfoldable pub get_preference :
    ℕ → Text → List NotificationPreference → Option NotificationPreference
unfolding text_eq
get_preference u ty [] = none
get_preference u ty (p ∷ ps) =
    if p.user_id == u && text_eq p.event_type ty then some p else get_preference u ty ps

abbrev pub add_notification : Notification → NotificationTables → NotificationTables
add_notification n s = record s {
  notifications = s.notifications ++ n ∷ [];
  events = s.events ++ n ∷ [];
}

-- `_send_email_stub`
abbrev pub send_email : ℕ → NotificationTables → NotificationTables
send_email u s = record s { emails = s.emails ++ u ∷ [] }

module _ (org : ℕ) (event_type title body : Text) where
  abbrev pub notification : ℕ → Notification
  notification u = record {
    user_id = u;
    organization_id = org;
    event_type = event_type;
    title = title;
    body = body;
  }

  -- With the preference, whether a notification was made.
  abbrev pub notify_by :
      ℕ → Option NotificationPreference → NotificationTables → Bool × NotificationTables
  notify_by u none s = (true, add_notification (notification u) s)
  notify_by u (some p) s =
      if not p.enabled
      then (false, s)
      else if not p.in_app && not p.email
      then (false, s)
      else if p.email && not p.in_app
      then (false, send_email u s)
      else if p.email
      then (true, send_email u (add_notification (notification u) s))
      else (true, add_notification (notification u) s)

  unfoldable pub notify : ℕ → NotificationTables → Bool × NotificationTables
  unfolding get_preference
  notify u s = notify_by u (get_preference u event_type s.preferences) s

  -- The loop over users, with `count`.
  unfoldable pub notify_each : List ℕ → NotificationTables → ℕ × NotificationTables
  unfolding notify
  notify_each [] s = (0, s)
  notify_each (u ∷ us) s =
      let (made, s1) = notify u s in
      let (count, s2) = notify_each us s1 in (if made then count + 1 else count, s2)

  module _ (name_matches : Text → TeamRef → Bool) where
    abbrev pub own_id : Option Team → Option ℕ
    own_id none = none
    own_id (some t) = if t.organization_id == org then some t.id else none

    abbrev pub id_of : Option Team → Option ℕ
    id_of none = none
    id_of (some t) = some t.id

    -- `resolve_team_id`: by identifier within the organisation, else by name.
    unfoldable pub resolve_team_id : TeamRef → List Team → Option ℕ
    resolve_team_id r teams = elim (own_id (get_by_ref r teams)) [
      | some tid ↦ some tid
      | none ↦ id_of (find_named name_matches org r teams)
    ]

    unfoldable pub notify_team :
        TeamRef → List Team → List TeamMember → NotificationTables → ℕ × NotificationTables
    unfolding resolve_team_id notify_each
    notify_team r teams members s = elim (resolve_team_id r teams) [
      | none ↦ (0, s)
      | some tid ↦ notify_each (member_ids tid members) s
    ]

  abbrev pub is_manager : Option RoleName → Bool
  is_manager none = false
  is_manager (some r) = role_eq r manager || (role_eq r admin || role_eq r owner)

  unfoldable pub manager_ids : List User → List ℕ
  manager_ids [] = []
  manager_ids (u ∷ us) =
      if u.organization_id == org && is_manager u.role
      then u.id ∷ manager_ids us
      else manager_ids us

  unfoldable pub notify_managers : List User → NotificationTables → ℕ × NotificationTables
  unfolding manager_ids notify_each
  notify_managers users s = notify_each (manager_ids users) s

abbrev pub default_event_types : List Text
default_event_types =
    codes "TICKET_ASSIGNED"
    ∷ codes "CONVERSATION_ASSIGNED"
    ∷ codes "AUTOMATION_NOTIFY"
    ∷ codes "MANAGER_ALERT"
    ∷ codes "MISSED_CHAT"
    ∷ []

abbrev pub default_preference : ℕ → Text → NotificationPreference
default_preference u ty = record {
  user_id = u;
  event_type = ty;
  in_app = true;
  email = false;
  enabled = true;
}

-- The loop over the types.
unfoldable pub ensure_each :
    ℕ → List Text → List NotificationPreference → List NotificationPreference
unfolding get_preference
ensure_each u [] ps = ps
ensure_each u (ty ∷ tys) ps =
    ensure_each u tys
      (if is_some (get_preference u ty ps) then ps else ps ++ default_preference u ty ∷ [])

unfoldable pub ensure_default_preferences : ℕ → NotificationTables → NotificationTables
unfolding ensure_each
ensure_default_preferences u s = record s {
  preferences = ensure_each u default_event_types s.preferences;
}
