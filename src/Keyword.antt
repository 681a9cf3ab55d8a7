-- ===== src/Keyword.antt =====
-- The keyword search that three tools carry, each in a copy of its own
-- (apps/web/.agents/skills/design-system/scripts/slide_search_core.py, and under
-- apps/web/.agents/skills/design/scripts the files logo/core.py and cip/core.py): the class `BM25`,
-- `_search_csv`, the choice of a domain and `search`.
pub mod Ranking
pub mod Lookup
pub mod Agreement
pub mod Domains
pub mod Examples
