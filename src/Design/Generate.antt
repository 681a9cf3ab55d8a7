-- ===== src/Design/Generate.antt =====
-- `generate`: the searches of several domains and what is made of them. The results of a search for a
-- query, a domain and a limit are the parameter `search`; nothing that the data files hold changes
-- between the searches of one run. `upper` is that of `str`.
pub mod Laws
use enterprise_angular_nest.Design.Sections.{
  section, landing_fields, style_fields, color_fields, typography_fields,
}
use enterprise_angular_nest.Base.{
  ℕ, Bool, not, Char, String, ◌<>◌, ◌==◌, Option, none, some, List, [], ◌∷◌, ◌++◌, find, is_empty,
  take, map, if◌then◌else◌, filter,
}
use enterprise_angular_nest.Base.Dict.{Dict, has, lookup}
use enterprise_angular_nest.Base.Floats.{Floats}
use enterprise_angular_nest.Base.Text.{Unicode, join}
use enterprise_angular_nest.Search.Rows.{Row, cell, text_of}
use enterprise_angular_nest.Reasoning.Parse.{Json}
use enterprise_angular_nest.Design.Dials.{
  Dial, Integer, density_tiers, motion_tiers, resolve_dial, variance_tiers,
}
use enterprise_angular_nest.Design.Mode.{
  filter_anti_patterns_for_mode, resolve_color_mode, same_value, select_palette_for_mode,
}
use enterprise_angular_nest.Design.Slug.{is_dash}
use enterprise_angular_nest.Design.Pages.{Search}
use enterprise_angular_nest.Design.Rules.{
  Reasoning, apply_reasoning, or_else_text, select_best_match,
}

-- the results of the domains that the generator reads
pub record Results : Type 0 where
  pub style : List Row
  pub color : List Row
  pub landing : List Row
  pub typography : List Row

-- the part of the returned dictionary that says which rows were chosen
pub record Sources : Type 0 where
  pub product : Option String
  pub reasoning : Option String
  pub style : Option String
  pub color : Option String
  pub typography : Option String
  pub landing : Option String
  pub color_mode : Option String

-- the dictionary that `generate` returns, its inner dictionaries as lists of texts
pub record DesignSystem : Type 0 where
  pub project_name : String
  pub category : String
  pub landing : Dict String
  pub style : Dict String
  pub colors : Dict String
  pub typography : Dict String
  pub key_effects : String
  pub anti_patterns : String
  pub decision_rules : Dict (List String)
  pub activated_rules : List (String × List String)
  pub constraints : List String
  pub reasoning_default : Bool
  pub sources : Sources
  pub severity : String
  pub variance : Option (Dial (List String))
  pub motion : Option (Dial String)
  pub density : Option (Dial (Dict String))
  pub motion_snippet : Row

-- `item.replace("-", " ")`
abbrev pub dashes_to_spaces : String → String
dashes_to_spaces String.[] = ""
dashes_to_spaces (String.◌∷◌ c s) =
    let rest = dashes_to_spaces s in if is_dash c then String.◌∷◌ " " rest else String.◌∷◌ c rest

abbrev not_empty : String → Bool
not_empty text = not (text == "")

-- `resolved_query`
abbrev pub resolved_query : String → String → List String → String
resolved_query query category constraints =
    join " "
      (filter not_empty (query ∷ category ∷ join " " (map dashes_to_spaces constraints) ∷ []))

abbrev or_text : String → String → String
or_text text other = if text == "" then other else text

abbrev spaced : String → String → String
spaced a b = a <> (" " <> b)

abbrev pub first_row : List Row → Row
first_row [] = []
first_row (row ∷ rows) = row

abbrev pub found_or_first : Option Row → List Row → Row
found_or_first none rows = first_row rows
found_or_first (some row) rows = row

module _ (u : Unicode) (search : Search) where
  abbrev pub landing_query : Dict Row → Reasoning → String → String → String
  landing_query landing_lookup r query resolved =
      or_text
        (if has (u.casefold r.pattern_name) landing_lookup
          then r.pattern_name
          else spaced r.pattern_name resolved)
        query

  abbrev style_query : String → String → List String → String
  style_query query resolved [] = query
  style_query query resolved (priority ∷ priorities) =
      spaced resolved (join " " (take 2 (priority ∷ priorities)))

  -- `_multi_domain_search`, less the product, whose results are replaced by those of the first search
  unfoldable pub multi_domain_search :
      Dict Row → String → String → Reasoning → List String → Results
  multi_domain_search landing_lookup query category r style_priority =
      let resolved = resolved_query query category r.constraints in
      record {
        style = search (style_query query resolved style_priority) "style" 3;
        color = search (spaced r.color_mood resolved) "color" 5;
        landing = search (landing_query landing_lookup r query resolved) "landing" 2;
        typography = search (spaced r.typography_mood resolved) "typography" 2;
      }

  abbrev tier_row : String → Row → Bool
  tier_row wanted row = same_value (lookup "Intensity Tier" row) (some wanted)

  abbrev snippet_of : String → List Row → Row
  snippet_of wanted matches = found_or_first (find (tier_row wanted) matches) matches

  -- the row of motion.csv for the dial
  abbrev pub motion_snippet_for : String → Option (Dial String) → Row
  motion_snippet_for query none = []
  motion_snippet_for query (some dial) =
      snippet_of dial.payload (search (spaced query dial.payload) "gsap" 5)

-- `a or b` on texts that may be missing
abbrev pub or_text_of : Option String → Option String → Option String
or_text_of none other = other
or_text_of (some text) other = if text == "" then other else some text

-- the keywords of a variance dial, before the priorities of the rule
abbrev pub effective_priority : Option (Dial (List String)) → List String → List String
effective_priority none priority = priority
effective_priority (some dial) priority = dial.payload ++ priority

-- the category of the first product
abbrev pub category_of : List Row → String
category_of [] = "General"
category_of (product ∷ products) = cell "General" "Product Type" product

module _ (F : Floats) (u : Unicode) (upper : String → String) (decimal : Char → Option ℕ)
    (search : Search) (row_text : Row → String) (loads : String → Option Json) (rules : List Row)
    (style_lookup landing_lookup : Dict Row) where
  -- what is made of the results, with the rows that are chosen
  abbrev pub assemble :
      String
      → Option String
      → List Row
      → Option (Dial (List String))
      → Option (Dial String)
      → Option (Dial (Dict String))
      → Reasoning
      → Results
      → DesignSystem
  assemble query project products variance motion density r found =
      let category = category_of products in
      let style =
        select_best_match u row_text style_lookup found.style
          (effective_priority variance r.style_priority) in
      let mode = or_else_text r.preferred_mode (resolve_color_mode u query style) in
      let color = select_palette_for_mode F u decimal found.color mode (some category) in
      let typography = first_row found.typography in
      let landing =
        found_or_first
          (find (λ row. same_value (lookup "Pattern Name" row) (some r.pattern_name)) found.landing)
          found.landing in
      record {
        project_name = or_else_text project (upper query);
        category = category;
        landing = section landing (landing_fields r.pattern_name);
        style = section style style_fields;
        colors = section color color_fields;
        typography = section typography (typography_fields r.typography_mood);
        key_effects = or_text (text_of "Effects & Animation" style) r.key_effects;
        anti_patterns = filter_anti_patterns_for_mode u r.anti_patterns mode;
        decision_rules = r.decision_rules;
        activated_rules = r.activated_rules;
        constraints = r.constraints;
        reasoning_default = r.is_default;
        sources = record {
          product = if is_empty products then none else some category;
          reasoning = if r.is_default then none else some category;
          style = or_text_of (lookup "Style ID" style) (lookup "Style Category" style);
          color = lookup "Product Type" color;
          typography = lookup "Font Pairing Name" typography;
          landing = lookup "Pattern Name" landing;
          color_mode = lookup "_mode_derivation" color;
        };
        severity = r.severity;
        variance = variance;
        motion = motion;
        density = density;
        motion_snippet = motion_snippet_for u search query motion;
      }

  abbrev with_reasoning :
      String
      → Option String
      → List Row
      → Option (Dial (List String))
      → Option (Dial String)
      → Option (Dial (Dict String))
      → Option Reasoning
      → Option DesignSystem
  with_reasoning query project products variance motion density none = none
  with_reasoning query project products variance motion density (some r) = some (
      assemble query project products variance motion density r (
        multi_domain_search u search landing_lookup query (category_of products) r
          (effective_priority variance r.style_priority)))

  -- `generate`; none is a `ValueError` of the decision rules.
  unfoldable pub generate :
      String
      → Option String
      → Option Integer
      → Option Integer
      → Option Integer
      → Option DesignSystem
  unfolding resolve_dial apply_reasoning multi_domain_search select_best_match resolve_color_mode
      select_palette_for_mode filter_anti_patterns_for_mode
  generate query project variance motion density =
      let products = search query "product" 1 in
      with_reasoning query project products (resolve_dial variance_tiers variance)
        (resolve_dial motion_tiers motion) (resolve_dial density_tiers density)
        (apply_reasoning u loads rules style_lookup (category_of products) query)
