-- ===== src/Slides.antt =====
-- The slide tools of apps/web/.agents/skills/design-system/scripts/slide_search_core.py: the search of
-- the slide databases, the decision tables, and the deck rules that `search_with_context` puts together.
pub mod Config
pub mod Search
pub mod Decisions
pub mod Deck
pub mod Context
pub mod Examples
