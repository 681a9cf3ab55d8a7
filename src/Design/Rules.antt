-- ===== src/Design/Rules.antt =====
-- The reasoning rule of a product category, and the style it prefers: `_find_reasoning_rule`,
-- `_apply_reasoning` and `_select_best_match`. `str(row)` is the parameter `row_text`.
pub mod Laws
use enterprise_angular_nest.Base.{
  ℕ, ◌+◌, Bool, true, false, not, ◌&&◌, ◌||◌, Char, code, String, ◌==◌, Option, none, some, List,
  [], ◌∷◌, ◌++◌, map, any, all, find, is_empty, leb, ltb, if◌then◌else◌,
}
use enterprise_angular_nest.Base.Dict.{Dict}
use enterprise_angular_nest.Base.Sort.{sort_desc}
use enterprise_angular_nest.Base.Text.{Unicode, contains, distinct, has_sub, split, split_on, strip}
use enterprise_angular_nest.Reasoning.Apply.{Outcome, apply_decision_rules}
use enterprise_angular_nest.Reasoning.Parse.{Json, Result, parse_decision_rules}
use enterprise_angular_nest.Search.Rows.{Row, cell, text_of}
use enterprise_angular_nest.Design.Styles.{is_deprecated, resolve_style}

-- the dictionary that `_apply_reasoning` returns
pub record Reasoning : Type 0 where
  pub pattern_name : String
  pub style_priority : List String
  pub color_mood : String
  pub typography_mood : String
  pub key_effects : String
  pub anti_patterns : String
  pub decision_rules : Dict (List String)
  pub activated_rules : List (String × List String)
  pub constraints : List String
  pub preferred_mode : Option String
  pub is_default : Bool
  pub severity : String

abbrev pub default_reasoning : Reasoning
default_reasoning = record {
  pattern_name = "Hero + Features + CTA";
  style_priority = "Minimalism" ∷ "Flat Design" ∷ [];
  color_mood = "Professional";
  typography_mood = "Clean";
  key_effects = "Subtle hover transitions";
  anti_patterns = "";
  decision_rules = [];
  activated_rules = [];
  constraints = [];
  preferred_mode = none;
  is_default = true;
  severity = "MEDIUM";
}

-- a style of `_resolve_style`, whose loop has enough rounds
abbrev pub or_empty_row : Option Row → Row
or_empty_row none = []
or_empty_row (some row) = row

-- `applied["pattern"] or ...`
abbrev pub or_else_text : Option String → String → String
or_else_text none text = text
or_else_text (some value) text = if value == "" then text else value

module _ (u : Unicode) where
  abbrev pub fold_category : String → String
  fold_category category = u.casefold (strip u.is_space category)

  -- `_find_reasoning_rule`
  unfoldable pub find_reasoning_rule : List Row → String → Row
  unfolding strip
  find_reasoning_rule rules category =
      or_empty_row
        (find (λ rule. fold_category (text_of "UI_Category" rule) == fold_category category) rules)

  abbrev strip_all : List String → List String
  strip_all texts = map (λ text. strip u.is_space text) texts

  abbrev pub reasoning_of : Dict Row → Row → Dict (List String) → Outcome → Reasoning
  reasoning_of lookup rule decision_rules applied = record {
    pattern_name = or_else_text applied.pattern_name (text_of "Recommended_Pattern" rule);
    style_priority =
        map (λ id. cell id "Style Category" (or_empty_row (resolve_style u lookup id)))
          applied.style_ids
        ++ strip_all (split_on "+" (text_of "Style_Priority" rule));
    color_mood = text_of "Color_Mood" rule;
    typography_mood = text_of "Typography_Mood" rule;
    key_effects = text_of "Key_Effects" rule;
    anti_patterns = text_of "Anti_Patterns" rule;
    decision_rules = decision_rules;
    activated_rules = applied.activated;
    constraints = applied.constraints;
    preferred_mode = applied.mode;
    is_default = false;
    severity = cell "MEDIUM" "Severity" rule;
  }

  abbrev with_outcome : Dict Row → Row → Dict (List String) → Option Outcome → Option Reasoning
  with_outcome lookup rule decision_rules none = none
  with_outcome lookup rule decision_rules (some applied) =
      some (reasoning_of lookup rule decision_rules applied)

  abbrev with_rules : Dict Row → Row → String → Result (Dict (List String)) → Option Reasoning
  with_rules lookup rule query (Result.err e) = none
  with_rules lookup rule query (Result.ok rules) =
      with_outcome lookup rule rules (apply_decision_rules u rules query)

  abbrev by_rule : (String → Option Json) → Dict Row → Row → String → Option Reasoning
  by_rule loads lookup [] query = some default_reasoning
  by_rule loads lookup (entry ∷ rule) query =
      with_rules lookup (entry ∷ rule) query
        (parse_decision_rules u loads (cell "{}" "Decision_Rules" (entry ∷ rule)))

  -- `_apply_reasoning`; none is a `ValueError` of the decision rules.
  unfoldable pub apply_reasoning :
      (String → Option Json) → List Row → Dict Row → String → String → Option Reasoning
  unfolding find_reasoning_rule parse_decision_rules apply_decision_rules resolve_style strip
      split_on
  apply_reasoning loads rules lookup category query =
      by_rule loads lookup (find_reasoning_rule rules category) query

-- `set(re.findall(r"[a-z0-9]+", text))`
abbrev pub is_plain_char : Char → Bool
is_plain_char c =
    (leb b'a' (code c) && leb (code c) b'z') || (leb b'0' (code c) && leb (code c) b'9')

unfoldable pub plain_words : String → List String
unfolding split
plain_words text = distinct (split (λ c. not (is_plain_char c)) text)

module _ (u : Unicode) (row_text : Row → String) where
  -- what one keyword adds to the score of a result
  abbrev pub keyword_points : Row → String → ℕ
  keyword_points result keyword =
      let tokens = plain_words (u.lower keyword) in
      if not (is_empty tokens)
        && all (contains (plain_words (u.lower (text_of "Style Category" result)))) tokens
      then 10
      else if any (contains (plain_words (u.lower (text_of "Keywords" result)))) tokens
      then 3
      else if any (λ token. has_sub token (u.lower (row_text result))) tokens
      then 1
      else 0

  abbrev pub points : Row → List String → ℕ
  points result [] = 0
  points result (keyword ∷ keywords) = keyword_points result keyword + points result keywords

  abbrev scored : List String → List Row → List (ℕ × Row)
  scored keywords [] = []
  scored keywords (result ∷ results) = (points result keywords, result) ∷ scored keywords results

  abbrev best_or : Row → List (ℕ × Row) → Row
  best_or first [] = first
  best_or first ((score, result) ∷ ranked) = if ltb 0 score then result else first

  -- the first priority that resolves to a style in use
  abbrev pub first_resolved : Dict Row → List String → Option Row
  first_resolved lookup [] = none
  first_resolved lookup (priority ∷ priorities) =
      let later = first_resolved lookup priorities in
      let resolved = or_empty_row (resolve_style u lookup priority) in
      if not (is_empty resolved) && not (is_deprecated resolved) then some resolved else later

  abbrev by_priority : Row → List Row → List String → Option Row → Row
  by_priority first results keywords (some resolved) = resolved
  by_priority first results keywords none =
      best_or first (sort_desc ltb (λ (p : ℕ × Row). p.0) (scored keywords (first ∷ results)))

  -- `_select_best_match`
  unfoldable pub select_best_match : Dict Row → List Row → List String → Row
  unfolding resolve_style plain_words sort_desc
  select_best_match lookup [] keywords = []
  select_best_match lookup (first ∷ results) [] = first
  select_best_match lookup (first ∷ results) (keyword ∷ keywords) =
      by_priority first results (keyword ∷ keywords) (first_resolved lookup (keyword ∷ keywords))
