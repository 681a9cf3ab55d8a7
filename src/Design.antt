-- ===== src/Design.antt =====
-- The design system generator (apps/web/.agents/skills/ui-ux-pro-max/scripts/design_system.py).
pub mod Slug
pub mod Persist
pub mod Styles
pub mod Colors
pub mod Mode
pub mod Dials
pub mod Pages
pub mod Rules
pub mod Sections
pub mod Generate
mod Examples
mod Contest
