-- ===== src/Logo.antt =====
-- The logo search of apps/web/.agents/skills/design/scripts/logo/core.py.
pub mod Config
pub mod Search
