-- ===== src/Auth.antt =====
-- The permission catalogue and the role hierarchy (backend/app/modules/auth/permissions.py).
pub mod Permissions
pub mod Escalation
