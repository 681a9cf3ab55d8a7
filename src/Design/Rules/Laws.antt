-- ===== src/Design/Rules/Laws.antt =====
-- What the reasoning of a category says of its rule.
use mathlib.Core.Option.{some-injective}
use enterprise_angular_nest.Base.{
  Bool, true, false, String, ◌==◌, Option, none, some, List, [], ◌∷◌, ◌≡◌, refl, ◌∙◌, ◌⊎◌, inl, inr,
  All, arith, find, Bool-cases, sym,
}
use enterprise_angular_nest.Base.Dict.{Dict}
use enterprise_angular_nest.Base.Text.{Unicode}
use enterprise_angular_nest.Reasoning.Apply.Spec.{specified}
use enterprise_angular_nest.Reasoning.Apply.Effects.{apply-specified}
use enterprise_angular_nest.Reasoning.Parse.{Json, Result, parse_decision_rules}
use enterprise_angular_nest.Reasoning.Parse.Accepted.{parse-IsRuleSet}
use enterprise_angular_nest.Search.Rows.{Row, cell, text_of}
use enterprise_angular_nest.Design.Rules
use enterprise_angular_nest.Design.Rules.{
  Reasoning, apply_reasoning, fold_category, find_reasoning_rule, or_empty_row,
}

All-find :
    (P : Row → Type 0) (p : Row → Bool) (rows : List Row) (row : Row)
    → All P rows
    → find p rows ≡ some row
    → P row
All-find P p [] row h e = absurd (ground (arith, e))
All-find P p (x ∷ rows) row h e = elim (Bool-cases (p x)) [
  | inl q ↦ rw (sym (some-injective x row (sym (rw q refl) ∙ e))) h.0
  | inr q ↦ All-find P p rows row h.1 (rw q at e)
]

module _ (u : Unicode) (loads : String → Option Json) where
  -- the decision rules of a row are accepted
  abbrev pub IsAccepted : Row → Type 0
  IsAccepted rule =
      (parsed : Dict (List String)) × (parse_decision_rules u loads
          (cell "{}" "Decision_Rules" rule)
        ≡ Result.ok parsed)

  -- Either no rule is for the category, or its rules are parsed and their outcome is the specified one.
  abbrev pub Follows :
      List Row
      → String
      → String
      → Bool
      → Dict (List String)
      → List (String × List String)
      → List String
      → Type 0
  Follows rules category query is_default decision_rules activated constraints =
      ((find_reasoning_rule u rules category ≡ []) × (is_default ≡ true))
      ⊎ ((parse_decision_rules u loads
              (cell "{}" "Decision_Rules" (find_reasoning_rule u rules category))
            ≡ Result.ok decision_rules)
          × (is_default ≡ false)
          × (activated ≡ (specified u decision_rules query).activated)
          × (constraints ≡ (specified u decision_rules query).constraints))

  abbrev pub Reasoned : List Row → String → String → Option Reasoning → Type 0
  Reasoned rules category query o =
      (r : Reasoning) × (o ≡ some r)
      × Follows rules category query r.is_default r.decision_rules r.activated_rules r.constraints

  module _ (lookup : Dict Row) (rules : List Row) (category query : String) where
    parsed-Reasoned :
        (rule : Row) (parsed : Dict (List String))
        → find_reasoning_rule u rules category ≡ rule
        → parse_decision_rules u loads (cell "{}" "Decision_Rules" rule) ≡ Result.ok parsed
        → Reasoned rules category query (
            Rules.with_rules u lookup rule query
              (parse_decision_rules u loads (cell "{}" "Decision_Rules" rule)))
    parsed-Reasoned rule parsed e q =
        let applied = specified u parsed query in
        (
          Rules.reasoning_of u lookup rule parsed applied,
          rw q (rw (apply-specified u parsed query (parse-IsRuleSet u loads _ parsed q)) refl),
          inr (rw e q, refl, refl, refl),
        )

    rule-Reasoned :
        (rule : Row)
        → find_reasoning_rule u rules category ≡ rule
        → (rule ≡ []) ⊎ IsAccepted rule
        → Reasoned rules category query (Rules.by_rule u loads lookup rule query)
    rule-Reasoned [] e h = (Rules.default_reasoning, refl, inl (e, refl))
    rule-Reasoned (entry ∷ rule) e (inl q) = absurd (ground (arith, q))
    rule-Reasoned (entry ∷ rule) e (inr (parsed, q)) = parsed-Reasoned (entry ∷ rule) parsed e q

    found-IsAccepted :
        (found : Option Row)
        → find
            (λ rule. fold_category u (text_of "UI_Category" rule) == fold_category u category)
            rules
          ≡ found
        → All IsAccepted rules
        → (or_empty_row found ≡ []) ⊎ IsAccepted (or_empty_row found)
    found-IsAccepted none e h = inl refl
    found-IsAccepted (some rule) e h = inr (All-find IsAccepted _ rules rule h e)

    pub apply_reasoning-Reasoned :
        All IsAccepted rules
        → Reasoned rules category query (apply_reasoning u loads rules lookup category query)
    unfolding apply_reasoning find_reasoning_rule
    apply_reasoning-Reasoned h =
        rule-Reasoned (find_reasoning_rule u rules category) refl (found-IsAccepted _ refl h)
