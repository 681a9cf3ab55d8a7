-- ===== src/Slides/Decisions.antt =====
-- The decision tables of the slides: `DECISION_CSV_CONFIG`, `_load_decision_csv` and the four lookups.
pub mod Laws
use enterprise_angular_nest.Base.{
  Bool, true, false, String, Option, none, some, List, [], ◌∷◌, if◌then◌else◌, ◌&&◌,
}
use text.Mathlib.Text.{◌==◌}
use enterprise_angular_nest.Base.Dict
use enterprise_angular_nest.Base.Dict.{Dict, insert, lookup}
use enterprise_angular_nest.Search.Rows.{Row}
use enterprise_angular_nest.Keyword.Lookup.{Tables}

-- an entry of `DECISION_CSV_CONFIG`: file and key column
abbrev pub decision_config : Dict (String × String)
decision_config =
    ("layout-logic", ("slide-layout-logic.csv", "goal"))
    ∷ ("typography", ("slide-typography.csv", "content_type"))
    ∷ ("color-logic", ("slide-color-logic.csv", "emotion"))
    ∷ ("backgrounds", ("slide-backgrounds.csv", "slide_type"))
    ∷ []

-- one row of the comprehension: a row without the key column is left out, a later row wins
abbrev pub add_row : String → Row → Dict Row → Option String → Dict Row
add_row column row table none = table
add_row column row table (some key) = insert key row table

abbrev pub key_rows : String → Dict Row → List Row → Dict Row
key_rows column table [] = table
key_rows column table (row ∷ rows) =
    key_rows column (add_row column row table (lookup column row)) rows

abbrev pub keyed : String → Option (List Row) → Dict Row
keyed column none = []
keyed column (some rows) = key_rows column [] rows

abbrev pub load_config : Tables → Option (String × String) → Dict Row
load_config tables none = []
load_config tables (some (file, column)) = keyed column (tables file)

-- `_load_decision_csv`
unfoldable pub load_decision_csv : Tables → String → Dict Row
load_decision_csv tables csv_type = load_config tables (lookup csv_type decision_config)

-- the row that `get_layout_for_goal` returns, with `_pattern_break` and `_contrast_with`
pub record Layout : Type 0 where
  pub row : Row
  pub contrast_with : Option String

-- a string that is not empty
abbrev pub truthy : Option String → Bool
truthy none = false
truthy (some text) = if text == "" then false else true

abbrev pub is_text : String → Option String → Bool
is_text text none = false
is_text text (some value) = value == text

-- `table.get(key, table.get(default, {}))`
abbrev pub row_or : String → String → Dict Row → Row
row_or default key table = Dict.get_or (Dict.get_or [] default table) key table

abbrev pub with_contrast : Row → Option String → Layout
with_contrast row previous_emotion =
    if is_text "true" (lookup "break_pattern" row) && truthy previous_emotion
    then record { row = row; contrast_with = previous_emotion }
    else record { row = row; contrast_with = none }

unfoldable pub get_layout_for_goal : Tables → String → Option String → Layout
unfolding load_decision_csv
get_layout_for_goal tables goal previous_emotion =
    with_contrast (row_or "features" goal (load_decision_csv tables "layout-logic"))
      previous_emotion

abbrev pub type_map : Dict String
type_map =
    ("hero", "hero-statement")
    ∷ ("hook", "hero-statement")
    ∷ ("title", "title-only")
    ∷ ("problem", "subtitle-heavy")
    ∷ ("agitation", "metric-callout")
    ∷ ("solution", "subtitle-heavy")
    ∷ ("features", "feature-grid")
    ∷ ("proof", "metric-callout")
    ∷ ("traction", "data-insight")
    ∷ ("social", "quote-block")
    ∷ ("testimonial", "testimonial")
    ∷ ("pricing", "pricing")
    ∷ ("team", "team")
    ∷ ("cta", "cta-action")
    ∷ ("comparison", "comparison")
    ∷ ("timeline", "timeline")
    ∷ []

abbrev pub content_type : String → Bool → Bool → String
content_type slide_type has_metrics has_quote =
    if has_metrics
    then "metric-callout"
    else if has_quote
    then "quote-block"
    else Dict.get_or "feature-grid" slide_type type_map

unfoldable pub get_typography_for_slide : Tables → String → Bool → Bool → Row
unfolding load_decision_csv
get_typography_for_slide tables slide_type has_metrics has_quote =
    Dict.get_or [] (content_type slide_type has_metrics has_quote)
      (load_decision_csv tables "typography")

unfoldable pub get_color_for_emotion : Tables → String → Row
unfolding load_decision_csv
get_color_for_emotion tables emotion =
    row_or "clarity" emotion (load_decision_csv tables "color-logic")

unfoldable pub get_background_config : Tables → String → Row
unfolding load_decision_csv
get_background_config tables slide_type =
    Dict.get_or [] slide_type (load_decision_csv tables "backgrounds")
