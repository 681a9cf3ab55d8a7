-- ===== src/Reasoning.antt =====
-- The grammar of design-system decision rules and their interpreter
-- (apps/web/.agents/skills/ui-ux-pro-max/scripts/reasoning_contract.py).
-- `json.loads` is the parameter `loads`: it gives the document with the pairs of each object in
-- order, or `none` for a `JSONDecodeError`.
pub mod Vocabulary
pub mod Grammar
pub mod Parse
pub mod Apply
mod Examples
