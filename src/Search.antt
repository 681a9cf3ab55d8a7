-- ===== src/Search.antt =====
-- The design search (apps/web/.agents/skills/ui-ux-pro-max/scripts/core.py): identities, stacks,
-- caches, calibrated retrieval, domains and the two entry points.
pub mod Rows
pub mod Identity
pub mod Stack
pub mod Cache
pub mod Config
pub mod Threshold
pub mod Vocabulary
pub mod Memory
pub mod Domain
pub mod Routing
pub mod Diagnostics
pub mod Retrieve
pub mod Suggest
pub mod Answers
pub mod Main
pub mod StackRows
pub mod StackSearch
mod Examples
mod Runs
