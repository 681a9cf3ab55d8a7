-- ===== src/Reasoning/Examples.antt =====
-- Runs of the decision-rule contract, and its theorems at a concrete set of rules.
use enterprise_angular_nest.Base.{
  true, false, String, Option, none, some, List, [], ◌∷◌, ◌≡◌, refl, ◌==◌, if◌then◌else◌, ◌↔◌,
}
use enterprise_angular_nest.Base.Text.{contains}
use enterprise_angular_nest.Base.Dict.{Dict}
use enterprise_angular_nest.Base.Ascii.{ascii}
use enterprise_angular_nest.Base.Words.{search_phrase}
use enterprise_angular_nest.Base.Words.Spec.{Occurs, search_phrase_iff}
use enterprise_angular_nest.Reasoning.Grammar.{validate_action}
use enterprise_angular_nest.Reasoning.Parse.{Json, ok, repeats, parse_decision_rules}
use enterprise_angular_nest.Reasoning.Parse.Accepted.{IsRuleSet, parse-IsRuleSet}
use enterprise_angular_nest.Reasoning.Parse.Documents.{document_of, parse-document_of}
use enterprise_angular_nest.Reasoning.Apply.{Outcome, is_active, apply_decision_rules}
use enterprise_angular_nest.Reasoning.Apply.Spec.{specified, asked, actions_of, active_rules}
use enterprise_angular_nest.Reasoning.Apply.Effects.{apply-specified}
use enterprise_angular_nest.Reasoning.Apply.Modes.{apply-distinct}

abbrev rules : Dict (List String)
rules =
    ("if_mobile", "style:flat" ∷ "mode:light" ∷ [])
    ∷ ("must_have", "constraint:aa-contrast" ∷ "pattern:Hero First" ∷ [])
    ∷ ("if_luxury", "style:flat" ∷ "mode:dark" ∷ "style:glass" ∷ [])
    ∷ []

abbrev loads : String → Option Json
loads raw = if raw == "rules" then some (document_of rules) else none

abbrev query : String
query = "A Premium phone shop"

parsed : parse_decision_rules ascii loads "rules" ≡ ok rules
unfolding parse_decision_rules validate_action
parsed = refl

rules-IsRuleSet : IsRuleSet ascii rules
rules-IsRuleSet = parse-IsRuleSet ascii loads "rules" rules parsed

abbrev outcome : Outcome
outcome = record {
  activated = rules;
  style_ids = "flat" ∷ "glass" ∷ [];
  constraints = "aa-contrast" ∷ [];
  pattern_name = some "Hero First";
  mode = some "dark";
}

ran : apply_decision_rules ascii rules query ≡ some outcome
unfolding apply_decision_rules is_active search_phrase
ran = refl

parse-IsRuleSet_example : IsRuleSet ascii rules
parse-IsRuleSet_example = parse-IsRuleSet ascii loads "rules" rules parsed

parse-document_of_example : parse_decision_rules ascii loads "rules" ≡ ok rules
parse-document_of_example = parse-document_of ascii loads "rules" rules refl rules-IsRuleSet

apply-specified_example :
    apply_decision_rules ascii rules query ≡ some (specified ascii rules query)
apply-specified_example = apply-specified ascii rules query rules-IsRuleSet

apply-distinct_example :
    (repeats outcome.style_ids ≡ false)
    × (repeats outcome.constraints ≡ false)
    × ((v : String)
        → contains outcome.style_ids v
          ≡ contains (asked "style" (actions_of (active_rules ascii rules query))) v)
    × ((v : String)
        → contains outcome.constraints v
          ≡ contains (asked "constraint" (actions_of (active_rules ascii rules query))) v)
apply-distinct_example = apply-distinct ascii rules query outcome rules-IsRuleSet ran

search_phrase_iff_example :
    (search_phrase ascii.is_word "phone" "a phone" ≡ true)
    ↔ Occurs ascii.is_word false "phone" "a phone"
search_phrase_iff_example = search_phrase_iff ascii.is_word "phone" "a phone"
