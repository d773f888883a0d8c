-- ===== src/Widgets.antt =====
-- backend/app/modules/widgets: what guards the public endpoints of the embedded chat.
pub mod RateLimit
pub mod Window
pub mod DomainGuard
pub mod Allowlist
mod Tests
