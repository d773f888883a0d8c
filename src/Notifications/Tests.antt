-- ===== src/Notifications/Tests.antt =====
-- Team 5 has the members 1, 2 and 3; user 2 turned the type off and user 3 wants mail alone.
use ai_customer_support_plat.Prelude.{
  ℕ, ◌≡◌, ◌⊎◌, refl, Bool, true, false, List, [], ◌∷◌, none, some, codes, Text, text_eq,
}
use ai_customer_support_plat.Domain.{Team, TeamMember}
use ai_customer_support_plat.Assignment.Rotation.{get_team, member_ids}
use ai_customer_support_plat.Assignment.Service.{TeamRef, by_id, find_named}
use ai_customer_support_plat.Notifications.Service.{
  NotificationPreference, NotificationTables, get_preference, notification, notify, notify_each,
  resolve_team_id, notify_team, default_event_types, ensure_each, ensure_default_preferences,
}
use ai_customer_support_plat.Notifications.Delivery.{
  wants_shown, wants_mail, IsDelivered, notify_team-IsDelivered,
}
use ai_customer_support_plat.Notifications.Defaults.{with_defaults, ensure_default_preferences_lem}

service : Unit {0}
unfolding text_eq get_team member_ids find_named get_preference notify notify_each resolve_team_id
    notify_team ensure_each ensure_default_preferences wants_shown wants_mail
service = tt

abbrev alert : Text
alert = codes "MISSED_CHAT"

abbrev preference : ℕ → Bool → Bool → Bool → NotificationPreference
preference u in_app email enabled = record {
  user_id = u;
  event_type = alert;
  in_app = in_app;
  email = email;
  enabled = enabled;
}

abbrev tables : NotificationTables
tables = record {
  preferences = preference 2 true true false ∷ preference 3 false true true ∷ [];
  notifications = [];
  events = [];
  emails = [];
}

abbrev support : Team
support = record {
  id = 5;
  organization_id = 1;
  name = codes "Support";
  description = none;
  last_assigned_user_id = none;
}

abbrev member : ℕ → TeamMember
member u = record { team_id = 5; user_id = u }

abbrev members : List TeamMember
members = member 1 ∷ member 2 ∷ member 3 ∷ []

abbrev no_name : Text → TeamRef → Bool
no_name n r = false

notify_team_test : notify_team 1 alert [] [] no_name (by_id 5) (support ∷ []) members tables ≡ (
  1,
  record tables {
    notifications = notification 1 alert [] [] 1 ∷ [];
    events = notification 1 alert [] [] 1 ∷ [];
    emails = 3 ∷ [];
  },
)
unfolding service
notify_team_test = refl

notify_team-IsDelivered_example :
    ((resolve_team_id 1 alert [] [] no_name (by_id 5) (support ∷ []) ≡ none)
      × (notify_team 1 alert [] [] no_name (by_id 5) (support ∷ []) members tables ≡ (0, tables)))
    ⊎ ((tid : ℕ) × (resolve_team_id 1 alert [] [] no_name (by_id 5) (support ∷ []) ≡ some tid)
        × IsDelivered 1 alert [] []
            (member_ids tid members)
            tables
            (notify_team 1 alert [] [] no_name (by_id 5) (support ∷ []) members tables).0
            (notify_team 1 alert [] [] no_name (by_id 5) (support ∷ []) members tables).1)
notify_team-IsDelivered_example =
    notify_team-IsDelivered 1 alert [] [] no_name (by_id 5) (support ∷ []) members tables

ensure_default_preferences_lem_example :
    ((v : ℕ) (ty : Text)
      → get_preference v ty (ensure_default_preferences 2 tables).preferences
        ≡ with_defaults 2 default_event_types v ty (get_preference v ty tables.preferences))
    × (ensure_default_preferences 2 (ensure_default_preferences 2 tables)
        ≡ ensure_default_preferences 2 tables)
ensure_default_preferences_lem_example = ensure_default_preferences_lem 2 tables
