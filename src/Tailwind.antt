-- ===== src/Tailwind.antt =====
-- The Tailwind configuration generator
-- (apps/web/.agents/skills/ui-styling/scripts/tailwind_config_gen.py).
pub mod Plugins
pub mod Generator
pub mod CommandLine
pub mod Examples
