-- ===== src/Ranking.antt =====
-- The BM25 index of the design search
-- (apps/web/.agents/skills/ui-ux-pro-max/scripts/core.py, `_normalize` and the class `BM25`).
pub mod Vocabulary
pub mod Tokens
pub mod Index
mod Examples
