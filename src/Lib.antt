-- ===== src/Lib.antt =====
-- Verification of the Python tools of the agent skills under apps/web/.agents/skills. (A second copy
-- of the same files stands under apps/web/.aider-desk.) The tools search CSV databases of design
-- knowledge by BM25, choose decision rules, advise on slide decks, and write a Tailwind configuration.
--
-- The parts, their files and the code:
--   Base        what the others share: text with Python's string operations, dictionaries in insertion
--               order, the stable sort of `sorted(..., reverse=True)`, phrases between word boundaries.
--   Reasoning   ui-ux-pro-max/scripts/reasoning_contract.py: Grammar (`_validate_action`), Parse
--               (`parse_decision_rules`), Apply (`apply_decision_rules`, with `Outcome` for its state).
--   Ranking     the class `BM25` and `_normalize` of ui-ux-pro-max/scripts/core.py: Tokens (`tokenize`)
--               and Index (`fit`, `score`).
--   Search      the rest of that file: Identity (`_style_identity`, `_style_search_destination`), Stack
--               (`_stack_row_filter`), Cache (`_load_csv_snapshot`), Memory (the state: both caches and
--               the routing keywords), Domain and Routing (`detect_domain`, the rewrites), Retrieve
--               (`_get_bm25`, `_search_csv_detailed`), Suggest, Main (`search`) and StackSearch
--               (`search_stack`, with StackRows for the rows that a query names).
--   Design      ui-ux-pro-max/scripts/design_system.py: Slug (`safe_slug`), Persist
--               (`persist_design_system`, and Race for several agents at once), Styles
--               (`_resolve_style`), Colors (`_relative_luminance`), Mode (`_select_palette_for_mode`),
--               Dials (`_resolve_dial`), Rules (`_apply_reasoning`, `_select_best_match`), Generate with
--               Sections (`generate`) and Pages (`_generate_intelligent_overrides`).
--   Keyword     the search that three tools carry: Ranking (its own `BM25`), Lookup (`_search_csv`,
--               `detect_domain`), Domains (`search`, `search_all`), from
--               design-system/scripts/slide_search_core.py.
--   Slides      the rest of that file: Decisions (`get_layout_for_goal` and its kin), Deck
--               (`should_use_full_bleed`, `calculate_pattern_break`), Context (`search_with_context`).
--   Logo, Cip   design/scripts/logo/core.py and design/scripts/cip/core.py: their tables, over Keyword,
--               and `get_cip_brief`.
--   Tailwind    ui-styling/scripts/tailwind_config_gen.py: Plugins (`_format_plugins`), Generator
--               (the class and `write_config`) and CommandLine (`main` from the parsed arguments).
--   Installer   ui-styling/scripts/shadcn_add.py: the class `ShadcnInstaller`, with the commands it runs
--               as its state.
-- In Search every operation is a step on the record `Memory`, which may raise: Retrieve stores the
-- indexes of Ranking under keys with a variant name, and Stack and Main choose the filter and its name.
-- Slides, Logo and Cip are clients of Keyword through its record `Tool`; Keyword counts with the
-- dictionaries of Ranking.
--
-- Parameters stand for what is not in the repository: the Unicode database (`Unicode`), float
-- arithmetic (`Floats`), `json.loads` and `json.dumps`, `npx`, the version numbers that two regular
-- expressions find, the end of a write to the disk, and the data files. A file that the cache reads may change at every call; the
-- tables of Keyword are at rest. `None`, an exception or an error result is a value, as each file says.
-- Loops are structural recursions; the retries of the cache are its own counted attempts. The one loop
-- on fuel is that of `_resolve_style`, with a round for each entry of the lookup and one more: a round
-- sees a style id that was not seen before.
--
-- Not modelled: the formatters of design_system.py; validate_data.py; the generators of slides and
-- images; the other command lines; what is printed; and the TypeScript server and client.
pub mod Base
pub mod Reasoning
pub mod Ranking
pub mod Search
pub mod Keyword
pub mod Slides
pub mod Logo
pub mod Cip
pub mod Tailwind
pub mod Installer
pub mod Design
