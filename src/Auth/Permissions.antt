-- ===== src/Auth/Permissions.antt =====
-- backend/app/modules/auth/permissions.py: the catalogue of permission strings, the rank of each
-- role, the permissions that it carries, and the two rank guards.
use ai_customer_support_plat.Prelude.{ℕ, Bool, List, [], ◌∷◌, String, str_eq, leb, any}

pub data RoleName : Type 0 where
  owner admin manager agent read_only : RoleName

abbrev pub customers_read : String
customers_read = "customers.read"

abbrev pub customers_write : String
customers_write = "customers.write"

abbrev pub conversations_read : String
conversations_read = "conversations.read"

abbrev pub conversations_write : String
conversations_write = "conversations.write"

abbrev pub conversations_assign : String
conversations_assign = "conversations.assign"

abbrev pub tickets_read : String
tickets_read = "tickets.read"

abbrev pub tickets_write : String
tickets_write = "tickets.write"

abbrev pub users_read : String
users_read = "users.read"

abbrev pub users_write : String
users_write = "users.write"

abbrev pub teams_read : String
teams_read = "teams.read"

abbrev pub teams_write : String
teams_write = "teams.write"

abbrev pub settings_read : String
settings_read = "settings.read"

abbrev pub settings_write : String
settings_write = "settings.write"

abbrev pub knowledge_read : String
knowledge_read = "knowledge.read"

abbrev pub knowledge_write : String
knowledge_write = "knowledge.write"

abbrev pub ai_read : String
ai_read = "ai.read"

abbrev pub ai_write : String
ai_write = "ai.write"

abbrev pub all_permissions : List String
all_permissions =
    customers_read ∷ customers_write ∷ conversations_read ∷ conversations_write
    ∷ conversations_assign ∷ tickets_read ∷ tickets_write ∷ users_read ∷ users_write ∷ teams_read
    ∷ teams_write ∷ settings_read ∷ settings_write ∷ knowledge_read ∷ knowledge_write ∷ ai_read
    ∷ ai_write ∷ []

-- `ROLE_RANK`, read by `role_rank`.
unfoldable pub role_rank : RoleName → ℕ
role_rank owner = 3
role_rank admin = 3
role_rank manager = 2
role_rank agent = 1
role_rank read_only = 1

-- `ROLE_PERMISSIONS`
unfoldable pub role_permissions : RoleName → List String
role_permissions owner = all_permissions
role_permissions admin = all_permissions
role_permissions manager =
    customers_read ∷ customers_write ∷ conversations_read ∷ conversations_write
    ∷ conversations_assign ∷ tickets_read ∷ tickets_write ∷ users_read ∷ users_write ∷ teams_read
    ∷ teams_write ∷ settings_read ∷ knowledge_read ∷ knowledge_write ∷ ai_read ∷ ai_write ∷ []
role_permissions agent =
    customers_read ∷ customers_write ∷ conversations_read ∷ conversations_write
    ∷ conversations_assign ∷ tickets_read ∷ tickets_write ∷ users_read ∷ teams_read ∷ knowledge_read
    ∷ knowledge_write ∷ ai_read ∷ ai_write ∷ []
role_permissions read_only =
    customers_read ∷ conversations_read ∷ tickets_read ∷ users_read ∷ teams_read ∷ settings_read
    ∷ knowledge_read ∷ ai_read ∷ []

unfoldable pub can_assign_role : RoleName → RoleName → Bool
unfolding role_rank
can_assign_role actor_role target_role = leb (role_rank target_role) (role_rank actor_role)

unfoldable pub can_manage_user : RoleName → RoleName → Bool
unfolding role_rank
can_manage_user actor_role target_role = leb (role_rank target_role) (role_rank actor_role)

-- `p in perms`
unfoldable pub has : String → List String → Bool
has p perms = any (λ q. str_eq q p) perms
