-- ===== src/Cip.antt =====
-- The corporate identity search of apps/web/.agents/skills/design/scripts/cip/core.py.
pub mod Config
pub mod Search
pub mod Brief
