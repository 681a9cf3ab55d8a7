-- ===== src/Reasoning/Apply/Modes.antt =====
-- Consequences of the specification for a caller that reads the outcome.
use mathlib.Core.Option.{some-injective}
use enterprise_angular_nest.Base.{
  Bool, true, false, String, ◌==◌, eq_iff, Option, none, some, List, [], ◌∷◌, ◌≡◌, refl, sym, ◌∙◌,
  ap, arith, All, All-append, Bool-cases, inl, inr, filter,
}
use enterprise_angular_nest.Base.Text.{Unicode, contains}
use enterprise_angular_nest.Base.Dict.{Dict}
use enterprise_angular_nest.Reasoning.Vocabulary.{modes}
use enterprise_angular_nest.Reasoning.Grammar.{split_colon, validate_action}
use enterprise_angular_nest.Reasoning.Grammar.Values.{validate-mode}
use enterprise_angular_nest.Reasoning.Parse.{repeats}
use enterprise_angular_nest.Reasoning.Parse.Accepted.{IsRule, IsRuleSet}
use enterprise_angular_nest.Reasoning.Apply.{Outcome, apply_decision_rules}
use enterprise_angular_nest.Reasoning.Apply.Spec.{
  actions_of, asked, asked_by, active_rules, specified, first_of_each-once, last_or-All,
  first_of_each-once, contains-first_of_each, contains-first_of_each, last_or-All,
}
use enterprise_angular_nest.Reasoning.Apply.Effects.{apply-specified}

abbrev IsMode : String → Type 0
IsMode v = contains modes v ≡ true

asked_by-modes :
    (u : Unicode) (a : String) (s : Option (String × String)) (rest : List String)
    → split_colon a ≡ s
    → validate_action u a ≡ none
    → All IsMode rest
    → All IsMode (asked_by "mode" s rest)
asked_by-modes u a none rest e valid h = h
asked_by-modes u a (some (p, v)) rest e valid h = elim (Bool-cases (p == "mode")) [
  | inl q ↦ rw q (validate-mode u a p v valid e ((eq_iff p "mode").0 q), h)
  | inr q ↦ rw q h
]

asked-modes :
    (u : Unicode) (actions : List String)
    → All (λ a. validate_action u a ≡ none) actions
    → All IsMode (asked "mode" actions)
asked-modes u [] h = tt
asked-modes u (a ∷ actions) h =
    asked_by-modes u a (split_colon a) _ refl h.0 (asked-modes u actions h.1)

actions_of-valid :
    (u : Unicode) (p : String × List String → Bool) (rules : Dict (List String))
    → All (λ r. IsRule u r.0 r.1) rules
    → All (λ a. validate_action u a ≡ none) (actions_of (filter p rules))
actions_of-valid u p [] h = tt
actions_of-valid u p (r ∷ rules) h = elim (Bool-cases (p r)) [
  | inl e ↦ rw e (All-append _ r.1 _ h.0.each_valid (actions_of-valid u p rules h.1))
  | inr e ↦ rw e (actions_of-valid u p rules h.1)
]

module _ (u : Unicode) (rules : Dict (List String)) (query : String) (r : Outcome)
    (accepted : IsRuleSet u rules) (ran : apply_decision_rules u rules query ≡ some r) where
  as_specified : r ≡ specified u rules query
  as_specified = some-injective _ _ (sym ran ∙ apply-specified u rules query accepted)

  -- On accepted rules a mode that the outcome names is "dark" or "light".
  pub apply-mode : (v : String) → r.mode ≡ some v → contains modes v ≡ true
  apply-mode v e =
      last_or-All IsMode none (asked "mode" (actions_of (active_rules u rules query)))
        (λ w q. absurd (ground (arith, q)))
        (asked-modes u _ (actions_of-valid u _ rules accepted.each)) v
        (sym (ap (λ (o : Outcome). o.mode) as_specified) ∙ e)

  -- On accepted rules the outcome's styles have no repetition, and a style is among them exactly when
  -- an action of an active rule asks for it; likewise the constraints.
  pub apply-distinct :
      (repeats r.style_ids ≡ false)
      × (repeats r.constraints ≡ false)
      × ((v : String)
          → contains r.style_ids v
            ≡ contains (asked "style" (actions_of (active_rules u rules query))) v)
      × ((v : String)
          → contains r.constraints v
            ≡ contains (asked "constraint" (actions_of (active_rules u rules query))) v)
  apply-distinct = rw as_specified (
    first_of_each-once [] (asked "style" (actions_of (active_rules u rules query))),
    first_of_each-once [] (asked "constraint" (actions_of (active_rules u rules query))),
    λ v. contains-first_of_each [] (asked "style" (actions_of (active_rules u rules query))) v refl,
    λ v.
        contains-first_of_each [] (asked "constraint" (actions_of (active_rules u rules query))) v
          refl,
  )
